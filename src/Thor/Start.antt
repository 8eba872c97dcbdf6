-- ===== src/Thor/Start.antt =====
-- `main` of thor.c up to the rounds of `server_loop`.
use spsc.Prelude.{
  false, none, some, Option, List, ℕ, pos, pos_part, if◌then◌else◌, Run, returned, undefined, check,
  ◌>>=◌, ◌>>◌,
}
use spsc.Outside.{Outside}
use spsc.Asgard.{SharedMemory, m_thor, init_memory, asgard_init}
use spsc.Config.{Section}
use spsc.Config.Read.{asgard_config_read, eq_ℤ}
use spsc.Substring.{Sstring, sstring_init}
use spsc.Thor.{Thor}

-- `strdup(NULL)` is undefined.
abbrev pub started : Option (List ℕ) → Run (Option Sstring)
started none = undefined
started (some pattern) = returned (some (sstring_init pattern))

-- `before` stands in the output file.
unfoldable pub main : Outside → SharedMemory → List Section → List ℕ → Run Thor
main o os sections before = do
  (accepted, read) ← asgard_config_read o.atoi sections
  check accepted
  ms ← init_memory (pos_part (read.1.buffers))
  asgard ← asgard_init os ms m_thor
  context ← (if eq_ℤ (pos 0) (read.1.do_search) then returned none else started (read.1.pattern))
  returned (record {
    asgard = asgard;
    output_file_str = read.1.output_text_file;
    output_open = false;
    output_file = before;
    substring_context = context;
  })
