-- ===== src/Elastic/Request.antt =====
-- What the body of `RestoreSnapshotRequest` asks for.
use Prim.Native.String.append
use text.Mathlib.TextLemmas.{append_assoc}
use es_snapshot_restore.Base.{ℕ, zero, suc, String, ◌<>◌, ◌≡◌, ap, ◌∙◌, sym, List, [], ◌∷◌}
use es_snapshot_restore.Elastic.{restore_pieces, concat, restore_body}

-- A text that occurs in another.
abbrev pub Contains : String → String → Type 0
Contains part whole = (before : String) × (after : String) × (whole ≡ before <> (part <> after))

-- What is restored gets the name of this text, with `$1` for its old name.
abbrev pub replacement : String → String → String
replacement prefix value = "\"rename_replacement\": \"" <> (prefix <> ("_" <> (value <> "_$1\"")))

-- Its shards may be on no nodes but those with this attribute.
abbrev pub requirement : String → String → String
requirement key value =
    "\"index.routing.allocation.require." <> (key <> ("\": \"" <> (value <> "\"")))

Contains-later : (part s whole : String) → Contains part whole → Contains part (s <> whole)
Contains-later part s whole (before, after, e) =
    (s <> before, after, ap (λ u. s <> u) e ∙ sym (append_assoc s before (part <> after)))

abbrev drop : ℕ → List String → List String
drop zero ss = ss
drop (suc n) [] = []
drop (suc n) (s ∷ ss) = drop n ss

Contains-drop :
    (part : String) (n : ℕ) (ss : List String)
    → Contains part (concat (drop n ss))
    → Contains part (concat ss)
Contains-drop part zero ss h = h
Contains-drop part (suc n) [] h = h
Contains-drop part (suc n) (s ∷ ss) h =
    Contains-later part s (concat ss) (Contains-drop part n ss h)

-- A text of five pieces at the front.
Contains-front :
    (a b c d e : String) (ss : List String)
    → Contains (a <> (b <> (c <> (d <> e)))) (concat (a ∷ b ∷ c ∷ d ∷ e ∷ ss))
Contains-front a b c d e ss = ("", concat ss, simp append_assoc (sym (append.nil _)))

pub restore_body-Contains :
    (indices : List String) (prefix key value : String)
    → Contains (replacement prefix value) (restore_body indices prefix key value)
      × Contains (requirement key value) (restore_body indices prefix key value)
unfolding restore_body
restore_body-Contains indices prefix key value =
    let pieces = restore_pieces indices prefix key value in
    (
      Contains-drop (replacement prefix value) 3 pieces (Contains-front _ _ _ _ _ (drop 8 pieces)),
      Contains-drop (requirement key value) 14 pieces (Contains-front _ _ _ _ _ (drop 19 pieces)),
    )

-- A text within the first piece.
Contains-within :
    (before part after : String) (ss : List String)
    → Contains part (concat ((before <> (part <> after)) ∷ ss))
Contains-within before part after ss = (
  before,
  after <> concat ss,
  append_assoc before (part <> after) (concat ss)
      ∙ ap (λ u. before <> u) (append_assoc part after (concat ss)),
)

abbrev pub pattern_text : String
pattern_text = "\"rename_pattern\": \"(.+)\""

pub restore_body-pattern :
    (indices : List String) (prefix key value : String)
    → Contains pattern_text (restore_body indices prefix key value)
unfolding restore_body
restore_body-pattern indices prefix key value =
    let pieces = restore_pieces indices prefix key value in
    Contains-drop pattern_text 2 pieces
      (Contains-within "\",\n\t\t" pattern_text ",\n\t\t" (drop 3 pieces))
