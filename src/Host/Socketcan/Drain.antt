-- ===== src/Host/Socketcan/Drain.antt =====
-- host/src/socketcan.rs: the loop of `recv_until`, whose end is the first read that fails.
use fieldbus_control_node.Prelude.{
  ℕ, zero, suc, ◌<◌, ◌≡◌, refl, ap, arith, List, [], ◌∷◌, length, ok, err, ok-injective, sym, ◌∙◌,
}
use Prim.Native.String.{String}
use fieldbus_control_node.J1939.Payload.{Frame}
use fieldbus_control_node.Host.Socketcan.{
  Crate, CrateLaws, AnyFrame, standard, data_frame, remote, error, from_id, from_socketcan,
  to_socketcan, push, drain, SocketCanBus, recv_until,
}
use fieldbus_control_node.Host.Socketcan.Convert.{IsCarried, from_socketcan-to_socketcan}

module _ (crate : Crate) where
  -- The reads of a socket up to the first that fails: the frames, and the socket they leave.
  pub data Reads : crate.Socket → List (AnyFrame crate) → crate.Socket → Type 0 where
    stop : {s s' : crate.Socket} (e : String) → crate.read_frame s ≡ (s', err e) → Reads s [] s'
    more :
        {s s' s'' : crate.Socket} {fs : List (AnyFrame crate)} (f : AnyFrame crate)
        → crate.read_frame s ≡ (s', ok f)
        → Reads s' fs s''
        → Reads s (f ∷ fs) s''

  abbrev pub converted : List (AnyFrame crate) → List Frame
  converted [] = []
  converted (f ∷ fs) = push crate (from_socketcan crate f) (converted fs)

  -- More rounds than there are frames to read are enough: the loop ends at the failed read, with
  -- the frames before it that convert, in their order.
  pub drain-Reads :
      (reads : ℕ) {s s' : crate.Socket} {fs : List (AnyFrame crate)}
      → Reads s fs s'
      → length fs < reads
      → drain crate reads s ≡ (s', converted fs)
  unfolding drain
  drain-Reads zero r h = absurd (omega arith)
  drain-Reads (suc reads) (stop e read) h = rw (drain, ap (λ r. r.1) read, ap (λ r. r.0) read) refl
  drain-Reads (suc reads) (more f read later) h =
      rw (drain, ap (λ r. r.1) read, ap (λ r. r.0) read, drain-Reads reads later (omega arith)) refl

  -- The traffic that carries some frames: their conversions, in their order, among frames that are
  -- no data frames or that have a standard identifier.
  pub data Carries : List (AnyFrame crate) → List Frame → Type 0 where
    nothing : Carries [] []
    sent :
        {heard : List (AnyFrame crate)} {fs : List Frame} (f : Frame) (d : crate.DataFrame)
        → IsCarried f
        → to_socketcan crate f ≡ ok d
        → Carries heard fs
        → Carries (data_frame d ∷ heard) (f ∷ fs)
    asked :
        {heard : List (AnyFrame crate)} {fs : List Frame} (r : crate.RemoteFrame)
        → Carries heard fs
        → Carries (remote r ∷ heard) fs
    failed :
        {heard : List (AnyFrame crate)} {fs : List Frame} (e : crate.ErrorFrame)
        → Carries heard fs
        → Carries (error e ∷ heard) fs
    narrow :
        {heard : List (AnyFrame crate)} {fs : List Frame} (d : crate.DataFrame)
        (i : crate.StandardId)
        → crate.frame_id d ≡ standard i
        → Carries heard fs
        → Carries (data_frame d ∷ heard) fs

  module _ (laws : CrateLaws crate) where
    converted-Carries :
        {heard : List (AnyFrame crate)} {fs : List Frame} → Carries heard fs → converted heard ≡ fs
    unfolding push from_socketcan from_id
    converted-Carries nothing = refl
    converted-Carries (sent f d v made c) =
        let (d', made', back) = from_socketcan-to_socketcan crate laws f v in
        let same : d ≡ d' = ok-injective (sym made ∙ made') in
        rw (same, back, converted-Carries c) refl
    converted-Carries (asked r c) = converted-Carries c
    converted-Carries (failed e c) = converted-Carries c
    converted-Carries (narrow d i id c) = rw id (converted-Carries c)

    -- What a socket holds before its first failed read is delivered: `recv_until` gives exactly the
    -- frames that the traffic carries, in their order, whatever else is among them, and takes all
    -- of it from the socket; more rounds than there are frames are enough.
    pub recv_until-delivers :
        (b : SocketCanBus crate) (reads deadline : ℕ) (s' : crate.Socket)
        (heard : List (AnyFrame crate)) (fs : List Frame)
        → Carries heard fs
        → Reads b.sock heard s'
        → length heard < reads
        → recv_until crate reads b deadline ≡ (record b { sock = s' }, fs)
    unfolding recv_until
    recv_until-delivers b reads deadline s' heard fs c r h =
        rw (drain-Reads reads r h, converted-Carries c) refl
