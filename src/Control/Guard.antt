-- ===== src/Control/Guard.antt =====
-- The loopback guard of the control endpoints.
use spoton.Prelude.{◌≡◌, refl, ℕ, false, Option, none, some}
use spoton.Time.{Clock}
use spoton.Request.{Pending, Endpoint, boundary, seek_arm, hold_release, browse_keep, seek_keep}
use spoton.Shim.{Shim}
use spoton.Control.{
  forbidden, serve_boundary, serve_seek_arm, serve_hold_release, serve_browse_keep, serve_seek_keep,
}
use spoton.Http.{serve, serve_if, classify, pending_serve_control}

serve-forbidden :
    (c : Clock) (fd : Option ℕ) (e : Endpoint) (p : Pending) (g : Shim)
    → p.from_loopback ≡ false
    → ((serve c fd e p g).reply ≡ forbidden) × ((serve c fd e p g).shim ≡ g)
unfolding serve serve_boundary serve_seek_arm serve_hold_release serve_browse_keep serve_seek_keep
serve-forbidden c fd boundary p g h = rw h (refl, refl)
serve-forbidden c fd seek_arm p g h = rw h (refl, refl)
serve-forbidden c fd hold_release p g h = rw h (refl, refl)
serve-forbidden c fd browse_keep p g h = rw h (refl, refl)
serve-forbidden c fd seek_keep p g h = rw h (refl, refl)

serve_if-kept :
    (c : Clock) (fd : Option ℕ) (o : Option Endpoint) (p : Pending) (g : Shim)
    → p.from_loopback ≡ false
    → (serve_if c fd o p g).shim ≡ g
unfolding serve_if
serve_if-kept c fd none p g h = refl
serve_if-kept c fd (some e) p g h = (serve-forbidden c fd e p g h).1

-- Whatever a peer that is not 127.0.0.1 has sent, serving its request changes nothing in the shim.
pub pending_serve_control-remote :
    (c : Clock) (fd : Option ℕ) (p : Pending) (g : Shim)
    → p.from_loopback ≡ false
    → (pending_serve_control c fd p g).shim ≡ g
unfolding pending_serve_control
pending_serve_control-remote c fd p g h = serve_if-kept c fd (classify p) p g h
