-- ===== src/Runtime/Agrees.antt =====
-- syndicate/runtime/openhands.py does to the files of a server what syndicate/runtime/mock.py does to
-- its dictionary.
use syndicate.Prelude.{ℕ, ◌≡◌, refl, String, ◌<>◌, Option-cases, none, some, inl, inr}
use syndicate.Prelude.Maps.{put, find}
use syndicate.Exec.{Result, ok, raised, ◌>>=◌}
use syndicate.Runtime.Replace.{str_replace}
use syndicate.Runtime.Mock
use syndicate.Runtime.OpenHands
use syndicate.Runtime.Mock.{Files, mock_client}
use syndicate.Runtime.OpenHands.{HttpResponse, HttpClient, open_hands_client}

-- A server that keeps files: a download replies with 404 or with the file, and an upload stores.
pub record IsFileServer {W : Type 0} (http : HttpClient W) (files : W → Files) : Type 0 where
  pub missing :
      (path : String) (w : W)
      → find path (files w) ≡ none
      → (reply : HttpResponse) × (http.get ("/api/file/download/" <> path) w ≡ (ok reply, w))
        × (reply.status_code ≡ 404)
  pub present :
      (path content : String) (w : W)
      → find path (files w) ≡ some content
      → (reply : HttpResponse) × (http.get ("/api/file/download/" <> path) w ≡ (ok reply, w))
        × (reply.status_code ≡ 200)
        × (http.failure reply ≡ none)
        × (reply.body ≡ content)
  pub upload :
      (path name content : String) (w : W)
      → (reply : HttpResponse) × (w' : W) × (http.post_file
            ("/api/file/upload/" <> path)
            name
            content
            w
          ≡ (ok reply, w'))
        × (http.failure reply ≡ none)
        × (files w' ≡ put path content (files w))

module _ {W : Type 0} (http : HttpClient W) (files : W → Files) where
  -- The same result, and the same files after.
  abbrev pub Agrees : {A : Type 0} → Result A × W → Result A × Files → Type 0
  Agrees {A} r q = (r.0 ≡ q.0) × (files r.1 ≡ q.1)

module _ {W : Type 0} (http : HttpClient W) (files : W → Files) (server : IsFileServer http files)
    (repr : String → String) (default_timeout : ℕ) where
  read_file-eq :
      (path : String) (w : W)
      → (open_hands_client http repr default_timeout).read_file path w
        ≡ (((mock_client repr).read_file path (files w)).0, w)
  unfolding open_hands_client mock_client ◌>>=◌ OpenHands.read_file Mock.read_file
  read_file-eq path w = elim (Option-cases (find path (files w))) [
    | inl e ↦ let (reply, got, status) = server.missing path w e in rw (e, got, status) refl
    | inr (content, e) ↦
        let (reply, got, status, fine, body) = server.present path content w e in
        rw (e, got, fine, status, body) refl
  ]

  write_file-Agrees :
      (path content : String) (w : W)
      → Agrees http files
          ((open_hands_client http repr default_timeout).write_file path content w)
          ((mock_client repr).write_file path content (files w))
  unfolding open_hands_client mock_client ◌>>=◌ OpenHands.write_file Mock.write_file
  write_file-Agrees path content w =
      let (reply, w', sent, fine, stored) =
        server.upload path (OpenHands.filename_of path) content w in
      rw (sent, fine, stored) (refl, refl)

  -- What follows the replacement.
  edited-Agrees :
      (path : String) (r : Result String) (w : W)
      → Agrees http files
          ((Mock.returned r >>= (open_hands_client http repr default_timeout).write_file path) w)
          ((Mock.returned r >>= (mock_client repr).write_file path) (files w))
  unfolding ◌>>=◌
  edited-Agrees path (ok content) w = write_file-Agrees path content w
  edited-Agrees path (raised x) w = (refl, refl)

  edit_file-Agrees :
      (path old new : String) (w : W)
      → Agrees http files
          ((open_hands_client http repr default_timeout).edit_file path old new w)
          ((mock_client repr).edit_file path old new (files w))
  unfolding open_hands_client mock_client ◌>>=◌ OpenHands.edit_file Mock.edit_file Mock.read_file
  edit_file-Agrees path old new w = elim (Option-cases (find path (files w))) [
    | inl e ↦ rw (read_file-eq path w, e) (refl, refl)
    | inr (content, e) ↦
        rw (read_file-eq path w, e) (edited-Agrees path (str_replace repr content old new path) w)
  ]

  -- Over a server that keeps files, a read returns or raises what it does over the dictionary of the
  -- server's files and changes nothing, and a write and an edit have the same result and leave the
  -- same files.
  pub open_hands-Agrees :
      (path content old new : String) (w : W)
      → ((open_hands_client http repr default_timeout).read_file path w
          ≡ (((mock_client repr).read_file path (files w)).0, w))
        × Agrees http files
            ((open_hands_client http repr default_timeout).write_file path content w)
            ((mock_client repr).write_file path content (files w))
        × Agrees http files
            ((open_hands_client http repr default_timeout).edit_file path old new w)
            ((mock_client repr).edit_file path old new (files w))
  open_hands-Agrees path content old new w =
      (read_file-eq path w, write_file-Agrees path content w, edit_file-Agrees path old new w)
