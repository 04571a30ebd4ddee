-- ===== src/Tests/Start.antt =====
-- Program files and the loader.
use pocol_vm.Prelude.{ℕ, ◌≡◌, inl, inr, refl, arith, true, none, some, List, [], ◌∷◌, ◌++◌}
use pocol_vm.State.{err_ok, Vm, done}
use pocol_vm.Vm.{execute_inst}
use pocol_vm.Vm.Isa.{halt, encode}
use pocol_vm.Vm.Load.{
  Header, header_bytes, read_header, loaded, load_program, pocol_magic, pocol_version,
}
use pocol_vm.Vm.Start.{
  HeaderFits, Accepted, Refused, short, wrong_header, read_header-header_bytes, load_program-halts,
}
use pocol_vm.Tests.Console.{console_host}

abbrev header : Header
header = record { magic = pocol_magic; version = pocol_version; entry_point = 24; code_size = 2 }

header-HeaderFits : HeaderFits header
header-HeaderFits = record {
  magic = omega arith;
  version = omega arith;
  entry_point = omega arith;
  code_size = omega arith;
}

header-Accepted : Accepted header
header-Accepted = record { magic = refl; version = refl; code_size = omega arith }

read_header-header_bytes_example :
    read_header (header_bytes header ++ encode halt) ≡ some (header, encode halt)
read_header-header_bytes_example = read_header-header_bytes header (encode halt) header-HeaderFits

-- A file of one byte.
one_byte-Refused : Refused (some (0 ∷ []))
one_byte-Refused = short (omega arith)

abbrev no_output : List ℕ
no_output = []

-- A header of version 2.
abbrev newer : Header
newer = record header { version = 2 }

newer-HeaderFits : HeaderFits newer
newer-HeaderFits = record {
  magic = omega arith;
  version = omega arith;
  entry_point = omega arith;
  code_size = omega arith;
}

newer-Refused : Refused (some (header_bytes newer ++ []))
newer-Refused =
    wrong_header (read_header-header_bytes newer [] newer-HeaderFits) (inr (inl (omega arith)))

load_program-halts_example :
    (vm : Vm (List ℕ)) × (load_program none 0 [] (some (header_bytes header ++ encode halt))
      ≡ loaded vm)
    × (execute_inst console_host vm ≡ done err_ok (record vm { pc = 26; halt = true }))
unfolding encode
load_program-halts_example =
    load_program-halts console_host 0 [] header (encode halt) header-HeaderFits header-Accepted
      (omega arith) (omega arith)
