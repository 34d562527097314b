-- ===== src/Nodes/Script/Played.antt =====
-- The agentic loop of syndicate/nodes.py over a script.
use mathlib.Core.List.{append_assoc, append-nil}
use syndicate.Prelude.{
  ℕ, suc, ◌+◌, ◌≡◌, refl, sym, ap, subst, String, some, List, [], ◌∷◌, ◌++◌, length, arith,
}
use syndicate.Prelude.Maps.{put, find}
use syndicate.Exec.{Result, ok}
use syndicate.Llm.{Message, Request}
use syndicate.StubLlm.{
  StubTurn, StubAnthropicClient, Stubs, reply_of, create, client_at, get_call_history, next_turn,
}
use syndicate.StubLlm.Shared.{Shared}
use syndicate.Nodes.Script.Turns.{reached, turn_at-reached, create_at-snoc}

-- The client of an attempt, behind the clients `older` of the attempts before it.
module _ (id : String) (older : List StubAnthropicClient) (first : StubTurn) (later : List StubTurn)
    (opening : Message) where
  abbrev pub client_after : ℕ → List Request → StubAnthropicClient
  client_after i seen = record { first = first; later = later; call_index = i; calls_seen = seen }

  abbrev pub Holds : ℕ → List Request → Stubs → Type 0
  Holds i seen s = find id s.client_history ≡ some (older ++ (client_after i seen ∷ []))

  pub Holds-same :
      (i j : ℕ) (seen seen' : List Request) (s : Stubs)
      → i ≡ j
      → seen ≡ seen'
      → Holds i seen s
      → Holds j seen' s
  Holds-same i j seen seen' s p q h =
      subst {A = ℕ × List Request} (λ k. Holds k.0 k.1 s) (λ t. (p t, q t)) h

  abbrev pub asked : ℕ → List Request → Request → Stubs → Stubs
  asked i seen request s = record s {
    client_history =
        put id (older ++ (client_after (i + 1) (seen ++ (request ∷ [])) ∷ [])) s.client_history;
  }

  pub create-client_at :
      (i : ℕ) (seen : List Request) (request : Request) (s : Stubs)
      → Holds i seen s
      → (client_at id (length older)).create request s
        ≡ (ok (reply_of (i + 1) (reached i first later).0), asked i seen request s)
  unfolding client_at get_call_history create next_turn
  create-client_at i seen request s h =
      let made = create_at-snoc older request (client_after i seen) in
      let turn = turn_at-reached i first later in
      rw h (rw made (ap (λ t. (ok (reply_of (i + 1) t), asked i seen request s)) turn))

  -- What the loop has done, and what the script does when it is played on the sandbox alone: the
  -- outcome and the world are the same, and the requests that were recorded satisfy `P`.
  pub record IsPlayed {W : Type 0} (P : List Request → Type 0) (i : ℕ) (seen : List Request)
      (s : Stubs) (made : Result String × Shared W) (played : Result String × W) : Type 0 where
    pub result : made.0 ≡ played.0
    pub world : made.1.0 ≡ played.1
    pub requests : List Request
    pub scripts : made.1.1.scripts ≡ s.scripts
    pub holds : Holds (i + length requests) (seen ++ requests) made.1.1
    pub dialogue : P requests

  module _ {W : Type 0} (i : ℕ) (seen : List Request) (s : Stubs) where
    pub none-IsPlayed :
        (P : List Request → Type 0) (r : Result String) (w : W)
        → P []
        → Holds i seen s
        → IsPlayed P i seen s (r, (w, s)) (r, w)
    none-IsPlayed P r w p h = record {
      result = refl;
      world = refl;
      requests = [];
      scripts = refl;
      holds = Holds-same i (i + 0) seen (seen ++ []) s (omega arith) (sym (append-nil seen)) h;
      dialogue = p;
    }

    pub next-IsPlayed :
        (P Q : List Request → Type 0) (request : Request) (made : Result String × Shared W)
        (played : Result String × W)
        → ((rs : List Request) → P rs → Q (request ∷ rs))
        → IsPlayed P (i + 1) (seen ++ (request ∷ [])) (asked i seen request s) made played
        → IsPlayed Q i seen s made played
    next-IsPlayed P Q request made played f p = record {
      result = p.result;
      world = p.world;
      requests = request ∷ p.requests;
      scripts = p.scripts;
      holds =
          Holds-same (i + 1 + length p.requests) (i + suc (length p.requests))
            ((seen ++ (request ∷ [])) ++ p.requests) (seen ++ (request ∷ p.requests)) made.1.1
            (omega arith) (append_assoc seen (request ∷ []) p.requests) p.holds;
      dialogue = f p.requests p.dialogue;
    }

    pub weaken-IsPlayed :
        (P Q : List Request → Type 0) (made : Result String × Shared W) (played : Result String × W)
        → ((rs : List Request) → P rs → Q rs)
        → IsPlayed P i seen s made played
        → IsPlayed Q i seen s made played
    weaken-IsPlayed P Q made played f p = record {
      result = p.result;
      world = p.world;
      requests = p.requests;
      scripts = p.scripts;
      holds = p.holds;
      dialogue = f p.requests p.dialogue;
    }
