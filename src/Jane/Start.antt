-- ===== src/Jane/Start.antt =====
-- `main` of jane.c up to the rounds of `client_loop`.
use spsc.Prelude.{false, none, List, ℕ, pos_part, Run, returned, check, ◌>>=◌, ◌>>◌}
use spsc.Outside.{Outside}
use spsc.Asgard.{Ms, SharedMemory, m_jane, init_memory, asgard_init, zeroed_asgard}
use spsc.Config.{Section}
use spsc.Config.Read.{asgard_config_read}
use spsc.Jane.{Jane, set_input_file, set_ack}

abbrev no_ms : Ms
no_ms = record { sz = 0; pattern = 0; key = 0; shm = 0; shmid = 0 }

-- the globals before `main`, and the locals of `client_loop`; `md5` is not initialised
abbrev pub zeroed_jane : List ℕ → Jane
zeroed_jane md5 = record {
  asgard = zeroed_asgard no_ms;
  doack = false;
  input_file = none;
  input_file_ptr = none;
  shm_buffer = none;
  md5 = md5;
  failed = false;
  llen = 0;
}

-- A number of buffers that is accepted is not negative.
unfoldable pub main : Outside → SharedMemory → List Section → List ℕ → Run Jane
main o os sections md5 = do
  (accepted, read) ← asgard_config_read o.atoi sections
  check accepted
  jane ← set_input_file (read.0.input_text_file) (zeroed_jane md5)
  ms ← init_memory (pos_part (read.0.buffers))
  asgard ← asgard_init os ms m_jane
  returned ((set_ack false (record jane { asgard = asgard })).1)
