-- ===== src/Cloud/Store/File.antt =====
-- cloud/src/lib.rs: `Store::open` and `Store::append` on the bytes of the file, `readings`,
-- `device`, `log_bytes` and what an error displays. serde_json, UTF-8, `str::trim` and the file
-- system are parameters.
pub mod Reopen
pub mod Recovers
use Prim.Native.String.{String}
use fieldbus_control_node.Prelude.{
  ℕ, Bool, true, false, ◌&&◌, Option, none, some, List, [], ◌∷◌, ◌++◌, ◌==◌, if◌then◌else◌, Result,
  ok, err, ◌>>=◌, length,
}
use fieldbus_control_node.Cloud.Map.{get}
use fieldbus_control_node.Cloud.Map.Orders.{Text, text_ord}
use fieldbus_control_node.Cloud.Wire.{
  Float64, Envelope, Event, Error, io, invalid, unauthorized, not_found, conflict, DeviceRecord,
}
use fieldbus_control_node.Cloud.Store.{Store, empty, apply, or_default}

-- `Display for Error`.
unfoldable pub display : Error → String
display (io s) = s
display (invalid s) = s
display unauthorized = "unauthorized"
display not_found = "not found"
display conflict = "conflict"

-- `BufRead::lines` on bytes: a line ends at a line feed, with the carriage return before it.
unfoldable pub prepend : ℕ → List Text → List Text
prepend b [] = (b ∷ []) ∷ []
prepend b (line ∷ rest) = (b ∷ line) ∷ rest

unfoldable pub at_newline : Text → Bool
at_newline [] = false
at_newline (b ∷ bytes) = b == 10

unfoldable pub lines : Text → List Text
lines [] = []
lines (b ∷ bytes) =
    let rest = lines bytes in
    if b == 10 then [] ∷ rest else if b == 13 && at_newline bytes then rest else prepend b rest

-- What the file system answers: an error of `create_dir_all` and of `open`, and what a write of
-- bytes behind the file's leaves in it.
pub record FileSystem : Type 0 where
  pub create_dir_all : Option String
  pub open_log_file : Option String
  pub write_all : Text → Text → Text × Result (Unit {0}) String

unfoldable pub io_check : Option String → Result (Unit {0}) Error
io_check none = ok tt
io_check (some message) = err (io message)

unfoldable pub or_io {ℓ} : {A : Type ℓ} → Result A String → Result A Error
or_io (ok a) = ok a
or_io (err message) = err (io message)

unfoldable pub or_invalid {ℓ} : {A : Type ℓ} → Result A String → Result A Error
or_invalid (ok a) = ok a
or_invalid (err message) = err (invalid message)

module _ (f64 : Float64) where
  pub record Codec : Type 0 where
    pub to_string : Event f64 → Result Text String
    pub from_str : Text → Result (Event f64) String
    pub utf8 : Text → Result Text String
    pub is_blank : Text → Bool

  -- The bytes of the file, and the store.
  pub record Opened : Type 0 where
    pub file : Text
    pub store : Store f64

  module _ (codec : Codec) where
    -- The loop of `open` over the lines.
    unfoldable pub load : Store f64 → List Text → Result (Store f64) Error
    load s [] = ok s
    load s (raw ∷ rest) = or_io (codec.utf8 raw) >>= λ line.
        let skipped = load s rest in
        let read = or_invalid (codec.from_str line) >>= λ event. load (apply f64 s event) rest in
        if codec.is_blank line then skipped else read

    unfoldable pub open_file : FileSystem → Text → Result (Store f64) Error
    open_file fs file = do
      made ← io_check fs.create_dir_all
      opened ← io_check fs.open_log_file
      load (empty f64 []) (lines file)

    -- What a write leaves, and `apply` when it succeeded.
    unfoldable pub after_write :
        Opened → Event f64 → Text × Result (Unit {0}) String → Opened × Result (Unit {0}) Error
    after_write o event (file, ok done) =
        (record { file = file; store = apply f64 o.store event }, ok tt)
    after_write o event (file, err message) = (record o { file = file }, err (io message))

    -- The write of a printed event.
    unfoldable pub write_line :
        FileSystem → Opened → Event f64 → Result Text Error → Opened × Result (Unit {0}) Error
    write_line fs o event (err e) = (o, err e)
    write_line fs o event (ok line) = after_write o event (fs.write_all o.file (line ++ 10 ∷ []))

    unfoldable pub append_file : FileSystem → Opened → Event f64 → Opened × Result (Unit {0}) Error
    append_file fs o event = write_line fs o event (
        io_check fs.create_dir_all >>= λ made.
        io_check fs.open_log_file >>= λ opened. or_invalid (codec.to_string event))

  unfoldable pub values {ℓ κ} : {K : Type ℓ} {V : Type κ} → List (K × V) → List V
  values [] = []
  values ((k, v) ∷ m) = v ∷ values m

  unfoldable pub readings : Store f64 → Text → List (Envelope f64)
  readings s id = values (or_default f64 (get text_ord id s.readings))

  unfoldable pub device : Store f64 → Text → Option DeviceRecord
  device s id = get text_ord id s.devices

  -- The length that `fs::metadata` gives, or its error.
  unfoldable pub log_bytes : Result ℕ String → Result ℕ Error
  log_bytes metadata = or_io metadata
