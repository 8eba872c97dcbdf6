-- ===== src/System/Main/Tests.antt =====
-- A run of the two programs from their start, with segments at the addresses 5000 and 7000.
use spsc.Config.Read.{output_text_file_key}
use spsc.Prelude.{
  Option, ap, ℕ, ◌≡◌, refl, arith, true, none, some, List, [], ◌∷◌, length, returned, pos,
  strcmp_equal,
}
use spsc.Examples.{honest, atoi, file, here}
use spsc.Asgard.{SharedMemory}
use spsc.Jane.{Jane}
use spsc.Thor.{Thor}
use spsc.System.{Event}
use spsc.System.Main.{Setting}
use spsc.Config.{Section}
use spsc.Config.Read.{
  JaneConfig, ThorConfig, asgard_config_read, read_sections, read_jane, read_thor, check_configs,
  buffers_number, number, string, jane_name, thor_name, buffers_key, use_buffers_key,
  input_text_file_key, port_key, do_search_key, pattern_key,
}
use spsc.Jane.Start as Producer
use spsc.Thor.Start as Consumer

abbrev os : ℕ → SharedMemory
os address = record { shmget = λ key size. some 9; shmat = λ id. some address }

abbrev sections : List Section
sections =
    record {
      name = jane_name;
      config_pair =
          record { key = buffers_key; value = 51 ∷ [] }
          ∷ record { key = use_buffers_key; value = 49 ∷ [] }
          ∷ record { key = input_text_file_key; value = 102 ∷ [] }
          ∷ record { key = port_key; value = 55 ∷ [] }
          ∷ [];
    }
    ∷ record {
      name = thor_name;
      config_pair =
          record { key = buffers_key; value = 51 ∷ [] }
          ∷ record { key = output_text_file_key; value = 111 ∷ [] }
          ∷ record { key = do_search_key; value = 49 ∷ [] }
          ∷ record { key = pattern_key; value = 66 ∷ [] }
          ∷ record { key = port_key; value = 55 ∷ [] }
          ∷ [];
    }
    ∷ []

abbrev jane_read : JaneConfig
jane_read = record {
  input_text_file = some (102 ∷ []);
  buffers = pos 3;
  use_buffers = pos 1;
  port = pos 7;
}

abbrev thor_read : ThorConfig
thor_read = record {
  output_text_file = some (111 ∷ []);
  pattern = some (66 ∷ []);
  buffers = pos 3;
  do_search = pos 1;
  port = pos 7;
}

sections_lem : asgard_config_read atoi sections ≡ returned (true, (jane_read, thor_read))
unfolding asgard_config_read read_sections read_jane read_thor check_configs buffers_number number
    string strcmp_equal
sections_lem = refl

abbrev pattern_size : Option (List ℕ) → ℕ
pattern_size none = 0
pattern_size (some pattern) = length pattern

abbrev setting : Setting here sections 2 1 file
setting = record {
  jane_config = jane_read;
  thor_config = thor_read;
  accepted = sections_lem;
  buffers = refl;
  use_buffers = refl;
  name = 102 ∷ [];
  named = refl;
  opens = refl;
  output_name = 111 ∷ [];
  output_named = refl;
  writes = refl;
  some_pattern = λ e. omega (arith, ap pattern_size e);
  pos_u = omega arith;
  fits_u = omega arith;
}

abbrev events : List Event
events = honest ∷ honest ∷ honest ∷ honest ∷ []
