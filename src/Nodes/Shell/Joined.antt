-- ===== src/Nodes/Shell/Joined.antt =====
-- A POSIX shell reads a command that is built of quoted words as these words.
use text.Mathlib.TextLemmas.{append-nil, append_assoc}
use syndicate.Prelude.{String, ◌<>◌, ◌≡◌, ◌∙◌, refl, ap, sym, some, List, [], ◌∷◌, map, join}
use syndicate.Nodes.Shell.{quote}
use syndicate.Nodes.Shell.Words.{between, begin, words_from, words}
use syndicate.Nodes.Shell.RoundTrip.{prefixed, prefixed-some, words_from-quote, words_from-blank}

-- One word more in front of a command's words.
words_from-next :
    (w s : String) (ws : List String)
    → words_from between s ≡ some ws
    → words_from between (quote w <> (" " <> s)) ≡ some (w ∷ ws)
words_from-next w s ws h =
    words_from-quote w (" " <> s)
    ∙ ap (prefixed w) (words_from-blank s ∙ ap begin h)
    ∙ prefixed-some w "" ws
    ∙ ap (λ v. some (v ∷ ws)) (append-nil w)

pub words_from-last : (w : String) → words_from between (quote w) ≡ some (w ∷ [])
unfolding words_from
words_from-last w =
    ap (words_from between) (sym (append-nil (quote w)))
    ∙ words_from-quote w ""
    ∙ prefixed-some w "" []
    ∙ ap (λ v. some (v ∷ [])) (append-nil w)

-- The words of a list that is written with a blank between two.
pub words_from-join : (ws : List String) → words_from between (join " " (map quote ws)) ≡ some ws
unfolding join words_from
words_from-join [] = refl
words_from-join (w ∷ []) = words_from-last w
words_from-join (w ∷ v ∷ ws) =
    words_from-next w (join " " (map quote (v ∷ ws))) (v ∷ ws) (words_from-join (v ∷ ws))

regroup :
    (a b c s : String)
    → (a <> (" " <> (b <> (" " <> (c <> " "))))) <> s
      ≡ a <> (" " <> (b <> (" " <> (c <> (" " <> s)))))
regroup a b c s = simp (append_assoc)

-- A command of three safe words and more text.
pub words-command :
    (a b c s : String) (ws : List String)
    → quote a ≡ a
    → quote b ≡ b
    → quote c ≡ c
    → words_from between s ≡ some ws
    → words ((a <> (" " <> (b <> (" " <> (c <> " "))))) <> s) ≡ some (a ∷ b ∷ c ∷ ws)
unfolding words
words-command a b c s ws p q r h =
    ap (words_from between) (
      regroup a b c s
      ∙ ap (λ t. t <> (" " <> (b <> (" " <> (c <> (" " <> s)))))) (sym p)
      ∙ ap (λ t. quote a <> (" " <> (t <> (" " <> (c <> (" " <> s)))))) (sym q)
      ∙ ap (λ t. quote a <> (" " <> (quote b <> (" " <> (t <> (" " <> s)))))) (sym r))
    ∙ words_from-next a (quote b <> (" " <> (quote c <> (" " <> s)))) (b ∷ c ∷ ws)
        (words_from-next b (quote c <> (" " <> s)) (c ∷ ws) (words_from-next c s ws h))
