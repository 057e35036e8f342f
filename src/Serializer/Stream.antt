-- ===== src/Serializer/Stream.antt =====
-- The chunked reading of `persistTransientEntitydata`.
use mapit.Base.{Str, ℕ, zero, suc, ◌-◌, ◌<◌, [], ◌∷◌, ◌++◌, none, some, leb, length}
use mapit.Base.{◌≡◌, refl, ap, ◌∙◌, arith, append_assoc, Bool-cases, inl, inr}
use mapit.Messages.{Codec}
use mapit.TreeHash.{hash_string}
use mapit.Serializer.Prefix
use mapit.Serializer.Disk.{Disk, File, update, object_path, data_path}
use mapit.Serializer.Transient.{
  split_at, read_chunks, offset_step, bytes_of, persist_bytes, persist_file,
  persist_transient_entitydata,
}
use mapit.Status
use mapit.Outcome.{returned, running}

pub split_at-append : (n : ℕ) (s : Str) → (split_at n s).0 ++ (split_at n s).1 ≡ s
unfolding split_at
split_at-append zero s = refl
split_at-append (suc n) [] = refl
split_at-append (suc n) (c ∷ s) = ap (λ t. c ∷ t) (split_at-append n s)

pub length-split_at : (n : ℕ) (s : Str) → length (split_at n s).1 ≡ length s - n
unfolding split_at
length-split_at zero s = omega arith
length-split_at (suc n) [] = omega arith
length-split_at (suc n) (c ∷ s) = omega (arith, length-split_at n s)

-- With chunks that are not empty the loop ends and has read every byte once, in order.
pub read_chunks-total :
    (fuel step : ℕ) (rest acc : Str)
    → 0 < step
    → length rest < fuel
    → read_chunks fuel step rest acc ≡ returned (acc ++ rest)
unfolding read_chunks
read_chunks-total zero step rest acc h k = elim k [ ]
read_chunks-total (suc fuel) step rest acc h k = elim (Bool-cases (leb step (length rest))) [
  | inl e ↦
      rw (e, read_chunks)
        (read_chunks-total fuel step (split_at step rest).1 (acc ++ (split_at step rest).0) h
            (ground (arith, length-split_at step rest))
          ∙ ap returned (append_assoc acc _ _ ∙ ap (λ t. acc ++ t) (split_at-append step rest)))
  | inr e ↦ rw (e, read_chunks)
]

-- With empty chunks `read` never fails.
pub read_chunks-zero : (fuel : ℕ) (rest acc : Str) → read_chunks fuel 0 rest acc ≡ running
unfolding read_chunks
read_chunks-zero zero rest acc = refl
read_chunks-zero (suc fuel) rest acc = elim (Bool-cases (leb 0 (length rest))) [
  | inl e ↦
      rw (e, read_chunks) (read_chunks-zero fuel (split_at 0 rest).1 (acc ++ (split_at 0 rest).0))
  | inr e ↦ absurd (ground arith)
]

offset_step_pos : (n : ℕ) → 0 < n → 0 < offset_step n
offset_step_pos n h = ground arith

persist_bytes-moves :
    (codec : Codec) (fuel : ℕ) (path : Str) (f : File) (d : Disk)
    → 0 < length (bytes_of codec f)
    → length (bytes_of codec f) < fuel
    → persist_bytes codec fuel path f d
      ≡ returned (
        (Status.ok, hash_string codec (bytes_of codec f)),
        update
            (update d (data_path path) none)
            (object_path Prefix.entities_data (hash_string codec (bytes_of codec f)))
            (some f),
      )
unfolding persist_bytes
persist_bytes-moves codec fuel path f d k l = rw (
  read_chunks-total fuel (offset_step (length (bytes_of codec f))) (bytes_of codec f) []
      (offset_step_pos (length (bytes_of codec f)) k) l,
  persist_bytes,
)

persist_bytes-empty :
    (codec : Codec) (fuel : ℕ) (path : Str) (f : File) (d : Disk)
    → length (bytes_of codec f) ≡ 0
    → persist_bytes codec fuel path f d ≡ running
unfolding persist_bytes
persist_bytes-empty codec fuel path f d k =
    rw (k, read_chunks-zero fuel (bytes_of codec f) [], persist_bytes)

-- Transient entity data that is not empty is moved, unchanged, to the hash of all its bytes, whatever
-- the number of chunks, and nothing else on the disk changes.
pub persist_transient_entitydata-moves :
    (codec : Codec) (fuel c : ℕ) (path : Str) (f : File) (d : Disk)
    → d (data_path (c ∷ path)) ≡ some f
    → 0 < length (bytes_of codec f)
    → length (bytes_of codec f) < fuel
    → persist_transient_entitydata codec fuel (c ∷ path) d
      ≡ returned (
        (Status.ok, hash_string codec (bytes_of codec f)),
        update
            (update d (data_path (c ∷ path)) none)
            (object_path Prefix.entities_data (hash_string codec (bytes_of codec f)))
            (some f),
      )
unfolding persist_transient_entitydata
persist_transient_entitydata-moves codec fuel c path f d h k l =
    ap (λ o. persist_file codec fuel (c ∷ path) o d) h
    ∙ persist_bytes-moves codec fuel (c ∷ path) f d k l

-- Transient entity data without any byte is never persisted: with no fuel does the loop end.
pub persist_transient_entitydata-empty :
    (codec : Codec) (fuel c : ℕ) (path : Str) (f : File) (d : Disk)
    → d (data_path (c ∷ path)) ≡ some f
    → length (bytes_of codec f) ≡ 0
    → persist_transient_entitydata codec fuel (c ∷ path) d ≡ running
unfolding persist_transient_entitydata
persist_transient_entitydata-empty codec fuel c path f d h k =
    ap (λ o. persist_file codec fuel (c ∷ path) o d) h
    ∙ persist_bytes-empty codec fuel (c ∷ path) f d k
