-- ===== src/Cloud/Store/File/Recovers.antt =====
-- cloud/src/lib.rs: the file that the requests of a process leave, opened again.
use fieldbus_control_node.Prelude.{◌≡◌, sym, ap, ◌∙◌, subst, List, [], ok, ok-injective}
use fieldbus_control_node.Cloud.Map.Orders.{Text}
use fieldbus_control_node.Cloud.Wire.{Float64, Event}
use fieldbus_control_node.Cloud.Sign.{Crates}
use fieldbus_control_node.Cloud.Store.{Store, Disk, empty, replay}
use fieldbus_control_node.Cloud.Store.Recovery.{
  with_log, Request, serve_all, IsClean, serve_all-replay,
}
use fieldbus_control_node.Cloud.Store.File.{FileSystem, Codec, open_file}
use fieldbus_control_node.Cloud.Store.File.Reopen.{IsReady, Written, open_file-Written}

-- What a process serves outlives it: it opens the bytes of a file of printed events and serves any
-- requests that change the store, on a disk where a failed write leaves no line behind. A process
-- that then opens, without an error of the file system, a file whose bytes are the lines of the
-- events in the log holds the same store. Each of these lines reads back as its event: a number
-- that serde_json does not read back as the same number is excluded.
pub recovers :
    (f64 : Float64) (crates : Crates f64) (disk : Disk f64) (codec : Codec f64) (fs : FileSystem)
    (log : List (Event f64)) (qs : List (Request f64)) (file file' : Text) (s : Store f64)
    → IsClean f64 crates disk
    → IsReady f64 codec fs
    → Written f64 codec log file
    → open_file f64 codec fs file ≡ ok s
    → let s' = serve_all f64 crates disk (with_log f64 s log) qs in
      Written f64 codec s'.log file' → open_file f64 codec fs file' ≡ ok (with_log f64 s' [])
recovers f64 crates disk codec fs log qs file file' s clean ready w opened w' =
    let opened_as : replay f64 (empty f64 []) log ≡ s =
      ok-injective (sym (open_file-Written f64 codec fs log file ready w) ∙ opened) in
    let s' = serve_all f64 crates disk (with_log f64 s log) qs in
    open_file-Written f64 codec fs s'.log file' ready w'
    ∙ ap ok (
        subst
          (λ t.
            let t' = serve_all f64 crates disk (with_log f64 t log) qs in
            replay f64 (empty f64 []) t'.log ≡ with_log f64 t' [])
          opened_as (serve_all-replay f64 crates disk log qs clean))
