-- ===== src/Cloud/Store/File/Reopen.antt =====
-- cloud/src/lib.rs: the bytes that `append` writes, read back by `open`.
use Prim.Native.String.{String}
use fieldbus_control_node.Prelude.{
  ℕ, ◌≤◌, ◌≡◌, ◌≢◌, refl, sym, ap, ◌∙◌, subst, arith, false, none, List, [], ◌∷◌, ◌++◌, ok, err,
  ◌>>=◌, ok-injective, All, append_assoc, append_nil,
}
use fieldbus_control_node.Cloud.Map.Orders.{Text}
use fieldbus_control_node.Cloud.Wire.{Float64, Event, invalid}
use fieldbus_control_node.Cloud.Store.{Store, empty, apply, replay}
use fieldbus_control_node.Cloud.Store.Recovery.{replay-append}
use fieldbus_control_node.Cloud.Store.File.{
  prepend, at_newline, lines, FileSystem, io_check, or_io, or_invalid, Codec, Opened, load,
  open_file, after_write, write_line, append_file,
}

-- A printed line has no control characters.
abbrev pub OneLine : Text → Type 0
OneLine t = All (λ b. 32 ≤ b) t

at_newline-OneLine : (t rest : Text) → OneLine t → t ≢ [] → at_newline (t ++ rest) ≡ false
unfolding at_newline
at_newline-OneLine [] rest h ne = absurd (ne refl)
at_newline-OneLine (b ∷ t) rest h ne = ground arith

lines-cons : (b : ℕ) (t : Text) → 32 ≤ b → lines (b ∷ t) ≡ prepend b (lines t)
unfolding lines
lines-cons b t h = ground arith

lines-terminated : (t rest : Text) → OneLine t → lines (t ++ 10 ∷ rest) ≡ t ∷ lines rest
unfolding prepend
lines-terminated [] rest h = unfold lines in refl
lines-terminated (b ∷ t) rest h =
    lines-cons b (t ++ 10 ∷ rest) h.0 ∙ ap (prepend b) (lines-terminated t rest h.1)

lines-torn : (b : ℕ) (t : Text) → OneLine (b ∷ t) → lines (b ∷ t) ≡ (b ∷ t) ∷ []
unfolding prepend
lines-torn b [] h = lines-cons b [] h.0 ∙ unfold lines in refl
lines-torn b (c ∷ t) h = lines-cons b (c ∷ t) h.0 ∙ ap (prepend b) (lines-torn c t h.1)

module _ (f64 : Float64) (codec : Codec f64) where
  -- What serde_json prints of an event: one line of text that reads back as the event. A number
  -- that is not finite prints as `null` and does not.
  pub record IsPrinted (event : Event f64) (t : Text) : Type 0 where
    pub printed : codec.to_string event ≡ ok t
    pub one_line : OneLine t
    pub text : codec.utf8 t ≡ ok t
    pub visible : codec.is_blank t ≡ false
    pub read : codec.from_str t ≡ ok event

  -- The file of a log: each event's line, with a line feed behind it.
  pub data Written : List (Event f64) → Text → Type 0 where
    nothing : Written [] []
    line :
        {log : List (Event f64)} {file : Text} (event : Event f64) (t : Text)
        → IsPrinted event t
        → Written log file
        → Written (event ∷ log) (t ++ 10 ∷ file)

  load-event :
      (s : Store f64) (event : Event f64) (t : Text) (rest : List Text)
      → IsPrinted event t
      → load f64 codec s (t ∷ rest) ≡ load f64 codec (apply f64 s event) rest
  unfolding load or_io or_invalid
  load-event s event t rest p = rw (p.text, p.visible, p.read) refl

  load-Written :
      {log : List (Event f64)} {file : Text} (s : Store f64) (tail : Text)
      → Written log file
      → load f64 codec s (lines (file ++ tail)) ≡ load f64 codec (replay f64 s log) (lines tail)
  unfolding replay
  load-Written s tail nothing = refl
  load-Written s tail (line {log = log} {file = file} event t p w) =
      ap (load f64 codec s)
        (ap lines (append_assoc t (10 ∷ file) tail) ∙ lines-terminated t (file ++ tail) p.one_line)
      ∙ load-event s event t (lines (file ++ tail)) p
      ∙ load-Written (apply f64 s event) tail w

  -- The file system lets the file be opened.
  pub record IsReady (fs : FileSystem) : Type 0 where
    pub made : fs.create_dir_all ≡ none
    pub opened : fs.open_log_file ≡ none

  open_file-IsReady :
      (fs : FileSystem) (file : Text)
      → IsReady fs
      → open_file f64 codec fs file ≡ load f64 codec (empty f64 []) (lines file)
  unfolding open_file io_check
  open_file-IsReady fs file h = rw (h.made, h.opened) refl

  -- A file of printed events, however many, that ends in a torn line, one that is text but does not
  -- parse, is refused as invalid: the service does not start on it.
  pub open_file-torn :
      (fs : FileSystem) (log : List (Event f64)) (file : Text) (b : ℕ) (torn : Text)
      (message : String)
      → IsReady fs
      → Written log file
      → OneLine (b ∷ torn)
      → codec.utf8 (b ∷ torn) ≡ ok (b ∷ torn)
      → codec.is_blank (b ∷ torn) ≡ false
      → codec.from_str (b ∷ torn) ≡ err message
      → open_file f64 codec fs (file ++ b ∷ torn) ≡ err (invalid message)
  unfolding load or_io or_invalid
  open_file-torn fs log file b torn message ready w one text visible bad =
      open_file-IsReady fs (file ++ b ∷ torn) ready
      ∙ load-Written (empty f64 []) (b ∷ torn) w
      ∙ ap (load f64 codec (replay f64 (empty f64 []) log)) (lines-torn b torn one)
      ∙ rw (text, visible, bad) refl

  load-end : (s : Store f64) → load f64 codec s (lines []) ≡ ok s
  unfolding load lines
  load-end s = refl

  pub open_file-Written :
      (fs : FileSystem) (log : List (Event f64)) (file : Text)
      → IsReady fs
      → Written log file
      → open_file f64 codec fs file ≡ ok (replay f64 (empty f64 []) log)
  open_file-Written fs log file ready w =
      open_file-IsReady fs file ready
      ∙ ap (λ t. load f64 codec (empty f64 []) (lines t)) (sym (append_nil file))
      ∙ load-Written (empty f64 []) [] w
      ∙ load-end (replay f64 (empty f64 []) log)

  Written-append :
      {log : List (Event f64)} {file : Text} (event : Event f64) (t : Text)
      → IsPrinted event t
      → Written log file
      → Written (log ++ event ∷ []) (file ++ (t ++ 10 ∷ []))
  Written-append event t p nothing = line event t p nothing
  Written-append event t p (line {log = log} {file = file} e u q w) =
      subst (Written (e ∷ (log ++ event ∷ []))) (sym (append_assoc u (10 ∷ file) (t ++ 10 ∷ [])))
        (line e u q (Written-append event t p w))

  -- A file system that opens the file and puts behind it all that is written.
  pub record IsReliable (fs : FileSystem) : Type 0 where
    pub ready : IsReady fs
    pub writes : (file bytes : Text) → fs.write_all file bytes ≡ (file ++ bytes, ok tt)

  printed_line :
      (fs : FileSystem) (event : Event f64) (t : Text)
      → IsReady fs
      → codec.to_string event ≡ ok t
      → (io_check fs.create_dir_all >>= λ made.
          io_check fs.open_log_file >>= λ opened. or_invalid (codec.to_string event))
        ≡ ok t
  unfolding io_check or_invalid
  printed_line fs event t h p = rw (h.made, h.opened, p) refl

  write_line-ok :
      (fs : FileSystem) (o : Opened f64) (event : Event f64) (t file : Text)
      → fs.write_all o.file (t ++ 10 ∷ []) ≡ (file, ok tt)
      → (write_line f64 codec fs o event (ok t)).0
        ≡ record { file = file; store = apply f64 o.store event }
  unfolding write_line after_write
  write_line-ok fs o event t file e = ap (λ q. (after_write f64 codec o event q).0) e

  append_file-IsReliable :
      (fs : FileSystem) (o : Opened f64) (event : Event f64) (t : Text)
      → IsReliable fs
      → codec.to_string event ≡ ok t
      → (append_file f64 codec fs o event).0
        ≡ record { file = o.file ++ (t ++ 10 ∷ []); store = apply f64 o.store event }
  unfolding append_file
  append_file-IsReliable fs o event t h p =
      ap (λ r. (write_line f64 codec fs o event r).0) (printed_line fs event t h.ready p)
      ∙ write_line-ok fs o event t _ (h.writes o.file (t ++ 10 ∷ []))

  -- The events that a process appends, one after the other.
  pub append_files : FileSystem → Opened f64 → List (Event f64) → Opened f64
  append_files fs o [] = o
  append_files fs o (event ∷ events) = append_files fs (append_file f64 codec fs o event).0 events

  abbrev pub AllPrinted : List (Event f64) → Type 0
  AllPrinted [] = Unit {0}
  AllPrinted (event ∷ events) = ((t : Text) × IsPrinted event t) × AllPrinted events

  pub append_files-Written :
      (fs : FileSystem) (o : Opened f64) (log events : List (Event f64))
      → IsReliable fs
      → Written log o.file
      → o.store ≡ replay f64 (empty f64 []) log
      → AllPrinted events
      → let o' = append_files fs o events in open_file f64 codec fs o'.file ≡ ok o'.store
  unfolding append_files
  append_files-Written fs o log [] h w same all =
      open_file-Written fs log o.file h.ready w ∙ ap ok (sym same)
  append_files-Written fs o log (event ∷ events) h w same all =
      let (t, p) = all.0 in
      let o1 = (append_file f64 codec fs o event).0 in
      let made = append_file-IsReliable fs o event t h p.printed in
      let w1 : Written (log ++ event ∷ []) o1.file =
        subst (λ (q : Opened f64). Written (log ++ event ∷ []) q.file) (sym made)
          (Written-append event t p w) in
      let same1 : o1.store ≡ replay f64 (empty f64 []) (log ++ event ∷ []) =
        ap (λ (q : Opened f64). q.store) made
        ∙ ap (λ s. apply f64 s event) same
        ∙ sym (replay-append f64 (empty f64 []) log event) in
      append_files-Written fs o1 (log ++ event ∷ []) events h w1 same1 all.1

  -- What is written is read back: a process opens a file of printed events and appends further
  -- ones, on a file system that keeps all that is written and with events that print to lines which
  -- read back; a process that then opens the bytes of the file holds the same store.
  pub reopens :
      (fs : FileSystem) (log events : List (Event f64)) (file : Text) (s : Store f64)
      → IsReliable fs
      → Written log file
      → AllPrinted events
      → open_file f64 codec fs file ≡ ok s
      → let o = append_files fs (record { file = file; store = s }) events in
        open_file f64 codec fs o.file ≡ ok o.store
  reopens fs log events file s h w all opened =
      append_files-Written fs (record { file = file; store = s }) log events h w
        (ok-injective (sym opened ∙ open_file-Written fs log file h.ready w)) all
