-- ===== src/State/Messages.antt =====
-- The messages kept for each channel: how many, and which.
use voirc.Base.{
  ap, ℕ, suc, ◌-◌, ◌≤◌, ◌≡◌, refl, List, [], ◌∷◌, ◌++◌, Text, eqb, nat_eq, text_eq, length,
  length-append, length-drop, drop, map, ltb, if◌then◌else◌, arith, Option-cases, Bool, true, false,
  Bool-cases, inl, inr,
}
use voirc.Dict
use voirc.Dict.{Dict, Every, or_else}
use voirc.State.{AppState, push_message, add_message, load_history, after_bracket}

-- No channel keeps more than a thousand messages.
abbrev pub IsBounded : AppState → Type 0
IsBounded s = Every (λ _ (list : List Text). length list ≤ 1000) s.messages

pub length-push_message :
    (list : List Text) (msg : Text) → length list ≤ 1000 → length (push_message list msg) ≤ 1000
unfolding push_message
length-push_message list msg h = elim (Bool-cases (ltb 1000 (length (list ++ msg ∷ [])))) [
  | inl e ↦ rw e (rw length-drop (omega (arith, length-append list (msg ∷ []))))
  | inr e ↦ rw e (ground (arith, e))
]

if_bound :
    (b : Bool) (xs ys : List Text)
    → length xs ≤ 1000
    → length ys ≤ 1000
    → length (if b then xs else ys) ≤ 1000
if_bound true xs ys h k = h
if_bound false xs ys h k = k

length-map : (f : Text → Text) (xs : List Text) → length (map f xs) ≡ length xs
length-map f [] = refl
length-map f (x ∷ xs) = ap suc (length-map f xs)

loaded_bound :
    (n : ℕ) (lines : List Text)
    → n ≤ 1000
    → length (map (λ line. or_else (after_bracket line) line) (drop (length lines - n) lines))
      ≤ 1000
loaded_bound n lines few = rw length-map (rw length-drop (omega arith))

module _ (s : AppState) (h : IsBounded s) (channel : Text) where
  length-old : length (or_else (Dict.get s.messages channel) []) ≤ 1000
  length-old = elim (Option-cases (Dict.get s.messages channel)) [
    | inl e ↦ rw e (omega arith)
    | inr (l, e) ↦
        rw e (Dict.Every-get (λ _ (list : List Text). length list ≤ 1000) s.messages channel l h e)
  ]

  pub add_message-IsBounded : (msg : Text) → IsBounded (add_message s channel msg)
  unfolding add_message
  add_message-IsBounded msg =
      Dict.Every-insert (λ _ (list : List Text). length list ≤ 1000) s.messages channel _ h
        (length-push_message _ msg length-old)

  pub load_history-IsBounded :
      (max_lines : ℕ) (lines : List Text)
      → max_lines ≤ 1000
      → IsBounded (load_history s channel max_lines lines)
  unfolding load_history
  load_history-IsBounded max_lines lines few =
      Dict.Every-insert (λ _ (list : List Text). length list ≤ 1000) s.messages channel _ h
        (if_bound (eqb (length _) 0) _ _ (loaded_bound max_lines lines few) length-old)
