-- ===== src/Service/Certificates/Requests.antt =====
-- Sequences of requests for certificates that are there, each at its own time and with its own
-- schedule of failing queries.
use certio.Prelude.{ℕ, Bool, List, [], ◌∷◌, String}
use certio.Text.{Text}
use certio.Store.Models.{Certificate}
use certio.Store.Exec.{World, Exec}
use certio.Store.Exec.Triple.{Triple, Triple-Keeps}
use certio.Service.Crl.{Engine}
use certio.Service.Crl.Frame.{Tables, on}
use certio.Service.Certificates.{
  revoke, release_hold, Changes, update_certificate, delete_certificate, KeyPolicy,
  authorize_key_download, refresh_certificate_statuses,
}
use certio.Service.Certificates.Invariant.{Sound}
use certio.Service.Certificates.Keeping
use certio.Service.Certificates.Releasing
use certio.Service.Certificates.Edits
use certio.Service.Certificates.Permanent
use certio.Service.Certificates.Permanent.{Gone}

pub data Request : Type 0 where
  revoking : String → String → String → ℕ → Text → Bool → Request
  releasing : String → Text → Request
  updating : String → Changes → Request
  deleting : String → Request
  downloading : KeyPolicy → Certificate → Request
  refreshing : Request

-- The settings that do not change: the validity of a revocation list and the days of warning.
pub record Settings : Type 0 where
  pub crl_validity : ℕ
  pub warn_days : ℕ

module _ (engine : Engine) (settings : Settings) where
  open settings use {crl_validity, warn_days}

  unfoldable pub perform : Request → ℕ → World → World
  perform (revoking new_id actor_id id code passphrase skip) now w =
      (revoke engine now crl_validity new_id actor_id id code passphrase skip w).1
  perform (releasing id passphrase) now w =
      (release_hold engine now crl_validity warn_days id passphrase w).1
  perform (updating id changes) now w = (update_certificate id changes w).1
  perform (deleting id) now w = (delete_certificate id w).1
  perform (downloading policy cert) now w = (authorize_key_download now policy cert w).1
  perform refreshing now w = (refresh_certificate_statuses now warn_days w).1

  -- The schedule of faults that the environment sets up for one request, its time, and the request.
  unfoldable pub serve : List (List Bool × ℕ × Request) → World → World
  unfolding perform
  serve [] w = w
  serve ((faults, now, request) ∷ requests) w =
      serve requests (perform request now (record w { faults = faults }))

  module _ (P : Tables)
      (keeps : (request : Request) (now : ℕ) (w : World)
        → on P w
        → on P (perform request now w)) where
    serve-on :
        (requests : List (List Bool × ℕ × Request)) (w : World) → on P w → on P (serve requests w)
    unfolding serve
    serve-on [] w h = h
    serve-on ((faults, now, request) ∷ requests) w h =
        serve-on requests _ (keeps request now (record w { faults = faults }) h)

  by_triple :
      (P : Tables) {A : Type 0} {m : Exec A} (w : World)
      → Triple (on P) (on P) m (λ _. on P)
      → on P w
      → on P (m w).1
  by_triple P w t h = (Triple-Keeps t).at w h

  perform-Sound :
      (request : Request) (now : ℕ) (w : World) → on Sound w → on Sound (perform request now w)
  unfolding perform
  perform-Sound (revoking new_id actor_id id code passphrase skip) now w h =
      by_triple Sound w
        (Keeping.Stays-revoke engine now crl_validity new_id actor_id id code passphrase skip) h
  perform-Sound (releasing id passphrase) now w h =
      by_triple Sound w
        (Releasing.Stays-release_hold engine now crl_validity warn_days id passphrase) h
  perform-Sound (updating id changes) now w h =
      by_triple Sound w (Edits.Stays-update_certificate id changes) h
  perform-Sound (deleting id) now w h = by_triple Sound w (Edits.Stays-delete_certificate id) h
  perform-Sound (downloading policy cert) now w h =
      by_triple Sound w (Edits.Stays-authorize_key_download now policy cert) h
  perform-Sound refreshing now w h =
      by_triple Sound w (Edits.Stays-refresh_certificate_statuses now warn_days) h

  perform-Gone :
      (id : String) (request : Request) (now : ℕ) (w : World)
      → on (Gone id) w
      → on (Gone id) (perform request now w)
  unfolding perform
  perform-Gone id (revoking new_id actor_id j code passphrase skip) now w h =
      by_triple (Gone id) w
        (Permanent.Stays-revoke id engine now crl_validity new_id actor_id j code passphrase skip) h
  perform-Gone id (releasing j passphrase) now w h =
      by_triple (Gone id) w
        (Permanent.Stays-release_hold id engine now crl_validity warn_days j passphrase) h
  perform-Gone id (updating j changes) now w h =
      by_triple (Gone id) w (Permanent.Edits.Stays-update_certificate id j changes) h
  perform-Gone id (deleting j) now w h =
      by_triple (Gone id) w (Permanent.Edits.Stays-delete_certificate id j) h
  perform-Gone id (downloading policy cert) now w h =
      by_triple (Gone id) w (Permanent.Edits.Stays-authorize_key_download id now policy cert) h
  perform-Gone id refreshing now w h =
      by_triple (Gone id) w (Permanent.Edits.Stays-refresh_certificate_statuses id now warn_days) h

  -- From sound tables, after any sequence of revocations, releases, edits, deletions, downloads and
  -- status refreshes, and whatever queries the driver fails on the way, the tables are sound: no two
  -- revocations share a key or a certificate, and a certificate that reads as revoked has one.
  pub serve-Sound :
      (requests : List (List Bool × ℕ × Request)) (w : World)
      → Sound w.certificates w.revocations
      → Sound (serve requests w).certificates (serve requests w).revocations
  serve-Sound requests w h = serve-on Sound perform-Sound requests w h

  -- Where the keys of certificates differ and a certificate reads as revoked, it reads so after any
  -- sequence of those requests, if its row is still there, whatever queries the driver fails.
  pub serve-Gone :
      (id : String) (requests : List (List Bool × ℕ × Request)) (w : World)
      → Gone id w.certificates w.revocations
      → Gone id (serve requests w).certificates (serve requests w).revocations
  serve-Gone id requests w h = serve-on (Gone id) (perform-Gone id) requests w h
