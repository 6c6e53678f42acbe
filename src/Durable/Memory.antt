-- ===== src/Durable/Memory.antt =====
-- Files in memory, for the tests: a file holds the record itself.
use nix.Base.{String, Option, some, none, str_eq, ok, if◌then◌else◌, arith}
use nix.Durable.{Disk, Json}
use nix.Durable.Laws.{DiskLaws, JsonLaws}

module _ (E R : Type 0) where
  abbrev pub memory_disk : Disk E
  memory_disk = record {
    Fs = String → Option R;
    Bytes = R;
    lock = λ s. ok tt;
    read_file = λ s path. ok (s path);
    replace_file = λ s path r. ok (λ other. if str_eq other path then some r else s other);
  }

  abbrev pub no_files : String → Option R
  no_files path = none

  pub memory_disk-DiskLaws : DiskLaws memory_disk
  memory_disk-DiskLaws = record { read-replace = λ s path r h other. ground (arith, h) }

  abbrev pub memory_json : Json E R R
  memory_json = record { marshal = λ r. ok r; unmarshal = λ r. ok r }

  pub memory_json-JsonLaws : JsonLaws memory_json
  memory_json-JsonLaws = record { unmarshal-marshal = λ r h. ground (arith, h) }
