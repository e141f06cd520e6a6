-- ===== src/ClientIp/Walk.antt =====
-- server/internal/iputil/iputil.go: the entries of X-Forwarded-For, and which of them is the answer.
use pro_labs.Common.{
  ℕ, zero, suc, ◌≤◌, ◌<◌, ◌≡◌, refl, sym, ap, ◌∙◌, arith, Bool, true, false, Option, none, some,
  List, [], ◌∷◌, ◌++◌, ◌==◌, length, if◌then◌else◌, if-cases, Bool-cases, inl, inr, Text,
}
use pro_labs.ClientIp.{or_here, last_comma, last_entry, entry_or, walk}

-- The entries between the commas, from the left: the first one, and the others.
unfoldable pub fields : Text → Text × List Text
fields [] = ([], [])
fields (c ∷ text) = let f = fields text in if c == 44 then ([], f.0 ∷ f.1) else (c ∷ f.0, f.1)

abbrev pub from_right : List Text → List Text
from_right [] = []
from_right (x ∷ xs) = from_right xs ++ (x ∷ [])

-- The entries from the right.
abbrev pub hops : Text → List Text
hops text = from_right ((fields text).0 ∷ (fields text).1)

from_right_last : (xs : List Text) (x : Text) → from_right (xs ++ (x ∷ [])) ≡ x ∷ from_right xs
from_right_last [] x = refl
from_right_last (y ∷ xs) x = ap (λ (zs : List Text). zs ++ (y ∷ [])) (from_right_last xs x)

-- What a cut says of the entries.
abbrev CutOf : Text → Option (Text × Text) → Type 0
CutOf text none = fields text ≡ (text, [])
CutOf text (some (before, after)) =
    (fields text ≡ ((fields before).0, (fields before).1 ++ (after ∷ [])))
    × (length before < length text)

abbrev begun : ℕ → Bool → Text × List Text → Text × List Text
begun c is_comma f = if is_comma then ([], f.0 ∷ f.1) else (c ∷ f.0, f.1)

or_here-CutOf :
    (c : ℕ) (text : Text) (o : Option (Text × Text))
    → CutOf text o
    → CutOf (c ∷ text) (or_here c text o)
unfolding fields
or_here-CutOf c text none h =
    if-cases (CutOf (c ∷ text)) (c == 44)
      (λ comma.
        (ap (λ (b : Bool). begun c b (fields text)) comma ∙ ap (begun c true) h, omega arith))
      (λ other. ap (λ (b : Bool). begun c b (fields text)) other ∙ ap (begun c false) h)
or_here-CutOf c text (some (before, after)) (h, shorter) = elim (Bool-cases (c == 44)) [
  | inl comma ↦ (
    ap (λ (b : Bool). begun c b (fields text)) comma
        ∙ ap (begun c true) h
        ∙ ap
            (λ (b : Bool).
              ((begun c b (fields before)).0, (begun c b (fields before)).1 ++ (after ∷ [])))
            (sym comma),
    omega arith,
  )
  | inr other ↦ (
    ap (λ (b : Bool). begun c b (fields text)) other
        ∙ ap (begun c false) h
        ∙ ap
            (λ (b : Bool).
              ((begun c b (fields before)).0, (begun c b (fields before)).1 ++ (after ∷ [])))
            (sym other),
    omega arith,
  )
]

last_comma-CutOf : (text : Text) → CutOf text (last_comma text)
unfolding last_comma fields
last_comma-CutOf [] = refl
last_comma-CutOf (c ∷ text) = or_here-CutOf c text (last_comma text) (last_comma-CutOf text)

module _ {Ip Net : Type 0} (parse : Text → Option Ip) (split_host : Text → Option Text)
    (contains_ip : Net → Ip → Bool) (trim : Text → Text) (host : Text) (nets : List Net) where
  -- The first entry that is malformed or not trusted decides.
  unfoldable pub pick : List Text → Text
  pick [] = host
  pick (e ∷ es) =
      entry_or parse split_host contains_ip trim host nets (trim e) (pick es) (parse (trim e))

  module _ (no_ip : parse (trim []) ≡ none) where
    pick_empty : pick (hops []) ≡ host
    unfolding pick fields
    pick_empty =
        ap
          (λ (o : Option Ip). entry_or parse split_host contains_ip trim host nets (trim []) host o)
          no_ip

    cut_step :
        (fuel : ℕ) (text : Text) (o : Option (Text × Text))
        → CutOf text o
        → length text ≤ suc fuel
        → ((t : Text)
            → length t ≤ fuel
            → walk parse split_host contains_ip trim fuel host nets t ≡ pick (hops t))
        → walk parse split_host contains_ip trim fuel host nets [] ≡ host
        → entry_or parse split_host contains_ip trim host nets
            (trim (last_entry text o).0)
            (walk parse split_host contains_ip trim fuel host nets (last_entry text o).1)
            (parse (trim (last_entry text o).0))
          ≡ pick (hops text)
    unfolding pick
    cut_step fuel text none h l ih stop =
        ap
          (λ (r : Text).
            entry_or parse split_host contains_ip trim host nets (trim text) r (parse (trim text)))
          stop
        ∙ ap (λ (f : Text × List Text). pick (from_right (f.0 ∷ f.1))) (sym h)
    cut_step fuel text (some (before, after)) (h, shorter) l ih stop =
        ap
          (λ (r : Text).
            entry_or parse split_host contains_ip trim host nets (trim after) r
              (parse (trim after)))
          (ih before (omega arith))
        ∙ ap pick (sym (from_right_last ((fields before).0 ∷ (fields before).1) after))
        ∙ ap (λ (f : Text × List Text). pick (from_right (f.0 ∷ f.1))) (sym h)

    walk_stop : (fuel : ℕ) → walk parse split_host contains_ip trim fuel host nets [] ≡ host
    unfolding walk
    walk_stop zero = refl
    walk_stop (suc fuel) = refl

    -- The loop over the commas from the right, with the length of the header or more as fuel, gives
    -- what the entries between all commas give: the first one from the right that is malformed or
    -- not trusted decides. The empty text is no address.
    pub walk-pick :
        (fuel : ℕ) (text : Text)
        → length text ≤ fuel
        → walk parse split_host contains_ip trim fuel host nets text ≡ pick (hops text)
    unfolding walk
    walk-pick zero [] h = sym pick_empty
    walk-pick (suc fuel) [] h = sym pick_empty
    walk-pick zero (c ∷ text) h = absurd (omega arith)
    walk-pick (suc fuel) (c ∷ text) h =
        cut_step fuel (c ∷ text) (last_comma (c ∷ text)) (last_comma-CutOf (c ∷ text)) h
          (walk-pick fuel) (walk_stop fuel)
