-- ===== src/Durable/Laws.antt =====
-- What the files and the codec of a store promise, and what reading returns after a write.
use nix.Base.{◌≡◌, String, false, some, str_eq, eq_refl, ok, >>=-eq-ok, if◌then◌else◌, arith}
use nix.Durable.{Disk, Json, Codec, encode, decode, read, write}

pub record DiskLaws {E : Type 0} (d : Disk E) : Type 0 where
  pub read-replace :
      (s : d.Fs) (path : String) (bytes : d.Bytes) {t : d.Fs}
      → d.replace_file s path bytes ≡ ok t
      → (other : String)
      → d.read_file t other ≡ (if str_eq other path then ok (some bytes) else d.read_file s other)

pub record JsonLaws {E R Bytes : Type 0} (j : Json E R Bytes) : Type 0 where
  pub unmarshal-marshal :
      (r : R) {bytes : Bytes} → j.marshal r ≡ ok bytes → j.unmarshal bytes ≡ ok r

module _ {E R : Type 0} (d : Disk E) (laws : DiskLaws d) (c : Codec E R d.Bytes)
    (honest : JsonLaws c.json) where
  decode-encode : (r : R) {bytes : d.Bytes} → encode d c r ≡ ok bytes → decode d c bytes ≡ ok r
  unfolding encode decode
  decode-encode r h =
      let (valid, accepted, marshalled) = >>=-eq-ok (c.validate r) _ h in
      let same = honest.unmarshal-marshal r marshalled in ground (arith, same, accepted)

  -- A successful write in its parts.
  write-eq-ok :
      (s : d.Fs) (path : String) (r : R) {t : d.Fs}
      → write d c s path r ≡ ok t
      → (bytes : d.Bytes) × (encode d c r ≡ ok bytes) × (d.replace_file s path bytes ≡ ok t)
  unfolding write
  write-eq-ok s path r h = >>=-eq-ok (encode d c r) _ h

  -- What was written is what is read.
  pub read-write_self :
      (s : d.Fs) (path : String) (r : R) {t : d.Fs}
      → write d c s path r ≡ ok t
      → read d c t path ≡ ok (some r)
  unfolding read
  read-write_self s path r h =
      let (bytes, encoded, replaced) = write-eq-ok s path r h in
      let found = laws.read-replace s path bytes replaced path in
      let back = decode-encode r encoded in ground (arith, found, back, eq_refl path)

  -- The other files are as they were.
  pub read-write_other :
      (s : d.Fs) (path : String) (r : R) {t : d.Fs} (other : String)
      → write d c s path r ≡ ok t
      → str_eq other path ≡ false
      → read d c t other ≡ read d c s other
  unfolding read
  read-write_other s path r other h apart =
      let (bytes, encoded, replaced) = write-eq-ok s path r h in
      let kept = laws.read-replace s path bytes replaced other in ground (arith, kept, apart)
