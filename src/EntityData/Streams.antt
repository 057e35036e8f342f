-- ===== src/EntityData/Streams.antt =====
-- What is written through a provider, and read back.
use mapit.Base.{
  Str, ℕ, zero, suc, ◌-◌, ◌^◌, [], ◌++◌, Option, some, length, ◌≡◌, refl, ap, ◌∙◌, append-nil,
}
use mapit.Messages.{Codec}
use mapit.Serializer.Transient.{bytes_of}
use mapit.Serializer.Disk.{Disk, FsPath, File, raw, update, path_eq_refl}
use mapit.EntityData.{
  Provider, drop, start_read, get_stream_size, start_write, write_stream, set_stream_size,
  end_write, content, written_over,
}

update-same : (d : Disk) (p : FsPath) (o : Option File) → update d p o p ≡ o
update-same d p o = rw (path_eq_refl p)

-- A provider that reads and writes one file.
abbrev pub both : FsPath → Provider
both p = record { filename_read = some p; filename_write = some p }

drop_nil : (n : ℕ) → drop n [] ≡ []
drop_nil zero = refl
drop_nil (suc n) = refl

write_stream-file :
    (p : FsPath) (start len : ℕ) (bytes : Str) (d : Disk)
    → write_stream (both p) start len bytes d p ≡ some (raw bytes)
unfolding write_stream start_write end_write written_over
write_stream-file p start len bytes d =
    let cut = update d p (some (raw [])) in
    update-same cut p (some (raw (written_over bytes (cut p))))
    ∙ (ap (λ o. some (raw (written_over bytes o))) (update-same d p (some (raw [])))
        ∙ ap (λ s. some (raw s))
            (ap (λ t. bytes ++ t) (drop_nil (length bytes)) ∙ append-nil bytes))

-- What is written is the whole content afterwards, wherever the write was to start and whatever the
-- file held: a read from `start` gives the bytes from there on, and the size is their number. Setting
-- the size, to whatever it is, leaves nothing to read and the size 0.
pub write_stream-reads :
    (codec : Codec) (p : FsPath) (start len from size : ℕ) (bytes : Str) (d : Disk)
    → (start_read codec (both p) from len (write_stream (both p) start len bytes d)
        ≡ drop from bytes)
      × (get_stream_size codec (both p) (write_stream (both p) start len bytes d) ≡ length bytes)
      × (get_stream_size codec (both p) (set_stream_size (both p) size d) ≡ 0)
unfolding start_read get_stream_size write_stream set_stream_size
write_stream-reads codec p start len from size bytes d = (
  ap (content (λ f. drop from (bytes_of codec f)) []) (write_stream-file p start len bytes d),
  ap (content (λ f. length (bytes_of codec f)) (2 ^ 64 - 1))
      (write_stream-file p start len bytes d),
  rw (update-same d p (some (raw []))),
)
