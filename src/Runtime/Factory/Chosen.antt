-- ===== src/Runtime/Factory/Chosen.antt =====
-- Which adapter syndicate/runtime/factory.py chooses, and for which URL.
use Prim.Native.Char.{Char, code}
use text.Mathlib.TextLemmas.{nil-append, cons-append}
use text.Mathlib.TextEquality.{Char-path}
use mathlib.Core.Logic.{inl, inr}
use syndicate.Prelude.{
  Option, none, some, ℕ, zero, suc, ◌≡◌, ◌⊎◌, ◌∙◌, refl, ap, sym, String, ◌<>◌, Bool, true, false,
  Bool-cases, truthy_text, ◌==◌, if◌then◌else◌, arith,
}
use syndicate.Exec.{Result, ok, raised, Exception, runtime_error}
use syndicate.Runtime.Base.{RuntimeClient}
use syndicate.Runtime.Factory.{
  Parts, before_slashes, rstrip_slash, or_default, text_of, port_added, with_port, with_timeout,
  at_url, is_one, runtime_base_url, get_runtime_client,
}

pub slashes : ℕ → String
slashes zero = ""
slashes (suc n) = String.◌∷◌ "/" (slashes n)

pub ends_in_slash : String → Bool
ends_in_slash String.[] = false
ends_in_slash (String.◌∷◌ c String.[]) = code c == 47
ends_in_slash (String.◌∷◌ c (String.◌∷◌ d s)) = ends_in_slash (String.◌∷◌ d s)

-- A text without the slashes at its end.
pub record IsStripped (s t : String) : Type 0 where
  pub count : ℕ
  pub whole : s ≡ t <> slashes count
  pub bare : ends_in_slash t ≡ false

IsStripped-more :
    (c : Char) (s t : String)
    → IsStripped s t
    → IsStripped
        (String.◌∷◌ c s)
        (before_slashes t (String.◌∷◌ c t) (if code c == 47 then "" else String.◌∷◌ c ""))
unfolding slashes ends_in_slash
IsStripped-more c s String.[] h = elim (Bool-cases (code c == 47)) [
  | inl slash ↦
      let same : c ≡ "/" = Char-path c "/" (ground arith) in
      rw slash (record {
        count = suc h.count;
        whole =
            (λ i. String.◌∷◌ (same i) ((h.whole ∙ nil-append (slashes h.count)) i))
            ∙ sym (nil-append (slashes (suc h.count)));
        bare = refl;
      })
  | inr other ↦ rw other (record {
    count = h.count;
    whole = ap (String.◌∷◌ c) h.whole ∙ sym (cons-append c "" (slashes h.count));
    bare = other;
  })
]
IsStripped-more c s (String.◌∷◌ d t) h = record {
  count = h.count;
  whole = ap (String.◌∷◌ c) h.whole ∙ sym (cons-append c (String.◌∷◌ d t) (slashes h.count));
  bare = h.bare;
}

rstrip_slash-IsStripped : (s : String) → IsStripped s (rstrip_slash s)
unfolding rstrip_slash slashes ends_in_slash
rstrip_slash-IsStripped String.[] = record { count = 0; whole = sym (nil-append ""); bare = refl }
rstrip_slash-IsStripped (String.◌∷◌ c s) =
    IsStripped-more c s (rstrip_slash s) (rstrip_slash-IsStripped s)

module _ {W : Type 0} (parts : Parts W) where
  abbrev url : String
  url = text_of (parts.environ "SYNDICATE_RUNTIME_URL")

  abbrev timeout : Result ℕ
  timeout = parts.float (or_default (parts.environ "SYNDICATE_RUNTIME_TIMEOUT_SECONDS") "300")

  abbrev given_port : Option String
  given_port = parts.environ "SYNDICATE_RUNTIME_PORT"

  -- The URL of a server for a URL without slashes at its end: it is the same if no port is given or if
  -- it has one, and else has the given port behind it.
  abbrev HasPort : String → String → Type 0
  HasPort base served =
      ((truthy_text given_port ≡ false) × (served ≡ base))
      ⊎ ((truthy_text given_port ≡ true)
          × (((port : ℕ) × (parts.port base ≡ ok (some port)) × (served ≡ base))
              ⊎ ((parts.port base ≡ ok none) × (served ≡ base <> ":" <> text_of given_port))))

  -- A client for a server at the given URL without the slashes at its end.
  pub record IsServer (client : RuntimeClient W) : Type 0 where
    pub base : String
    pub stripped : IsStripped url base
    pub served : String
    pub ported : HasPort base served
    pub seconds : ℕ
    pub numeric : timeout ≡ ok seconds
    pub made :
        parts.open_hands served (parts.environ "SYNDICATE_RUNTIME_SESSION_API_KEY") seconds
        ≡ ok client

  -- The constructor of the client for such a server raises.
  pub record IsRefused (x : Exception) : Type 0 where
    pub base : String
    pub stripped : IsStripped url base
    pub served : String
    pub ported : HasPort base served
    pub seconds : ℕ
    pub numeric : timeout ≡ ok seconds
    pub made :
        parts.open_hands served (parts.environ "SYNDICATE_RUNTIME_SESSION_API_KEY") seconds
        ≡ raised x

  -- What a given URL comes to. An exception is that of the URL's port, if a port is given, or that of
  -- the timeout, or that of the constructor.
  abbrev pub IsServerOrRaised : Result (RuntimeClient W) → Type 0
  IsServerOrRaised (ok client) = IsServer client
  IsServerOrRaised (raised x) =
      ((base : String) × IsStripped url base
        × (truthy_text given_port ≡ true)
        × (parts.port base ≡ raised x))
      ⊎ ((timeout ≡ raised x) ⊎ IsRefused x)

  constructed :
      (served : String) (seconds : ℕ) (c : Result (RuntimeClient W))
      → HasPort (rstrip_slash url) served
      → timeout ≡ ok seconds
      → parts.open_hands served (parts.environ "SYNDICATE_RUNTIME_SESSION_API_KEY") seconds ≡ c
      → IsServerOrRaised c
  constructed served seconds (ok client) h e m = record {
    base = rstrip_slash url;
    stripped = rstrip_slash-IsStripped url;
    served = served;
    ported = h;
    seconds = seconds;
    numeric = e;
    made = m;
  }
  constructed served seconds (raised x) h e m = inr (
      inr (record {
        base = rstrip_slash url;
        stripped = rstrip_slash-IsStripped url;
        served = served;
        ported = h;
        seconds = seconds;
        numeric = e;
        made = m;
      }))

  timed :
      (served : String) (t : Result ℕ)
      → HasPort (rstrip_slash url) served
      → timeout ≡ t
      → IsServerOrRaised (with_timeout parts served t)
  timed served (ok seconds) h e = constructed served seconds _ h e refl
  timed served (raised x) h e = inr (inl e)

  at_port :
      (p : Result (Option ℕ))
      → truthy_text given_port ≡ true
      → parts.port (rstrip_slash url) ≡ p
      → IsServerOrRaised (at_url parts (port_added parts (rstrip_slash url) p))
  at_port (raised x) g e = inl (rstrip_slash url, rstrip_slash-IsStripped url, g, e)
  at_port (ok (some port)) g e = timed _ timeout (inr (g, inl (port, e, refl))) refl
  at_port (ok none) g e = timed _ timeout (inr (g, inr (e, refl))) refl

  served_lem : IsServerOrRaised (at_url parts (with_port parts (rstrip_slash url)))
  served_lem = elim (Bool-cases (truthy_text given_port)) [
    | inl given ↦ rw given (at_port (parts.port (rstrip_slash url)) given refl)
    | inr missing ↦ rw missing (timed (rstrip_slash url) timeout (inl (missing, refl)) refl)
  ]

  -- The mock is chosen exactly if SYNDICATE_MOCK_CLIENT is 1. Otherwise, without a URL it raises a
  -- RuntimeError. With one it gives a client for the server at that URL without the slashes at its end,
  -- and with the given port behind it if the URL has none, or raises: what `urlparse` raises for the
  -- port of the URL, if a port is given, or what `float` raises for the timeout, or what the
  -- constructor of the client raises.
  pub get_runtime_client_lem :
      ((is_one parts (parts.environ "SYNDICATE_MOCK_CLIENT") ≡ true)
        × (get_runtime_client parts ≡ ok parts.mock))
      ⊎ ((is_one parts (parts.environ "SYNDICATE_MOCK_CLIENT") ≡ false)
          × (((truthy_text (parts.environ "SYNDICATE_RUNTIME_URL") ≡ false)
                × ((text : String) × (get_runtime_client parts ≡ raised (runtime_error text))))
              ⊎ ((truthy_text (parts.environ "SYNDICATE_RUNTIME_URL") ≡ true)
                  × IsServerOrRaised (get_runtime_client parts))))
  unfolding get_runtime_client runtime_base_url
  get_runtime_client_lem =
      elim (Bool-cases (is_one parts (parts.environ "SYNDICATE_MOCK_CLIENT"))) [
        | inl mock ↦ rw mock (inl (refl, refl))
        | inr real ↦ elim (Bool-cases (truthy_text (parts.environ "SYNDICATE_RUNTIME_URL"))) [
          | inl given ↦ rw (real, given) (inr (refl, inr (refl, served_lem)))
          | inr missing ↦ rw (real, missing) (inr (refl, inl (refl, (_, refl))))
        ]
      ]
