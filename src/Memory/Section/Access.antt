-- ===== src/Memory/Section/Access.antt =====
-- memory/sections.py, `get`: the page that it returns, and the accesses that it counts.
use native.Mathlib.Nat.{add-zero, add_assoc}
use kaos_agents.Prelude.{
  ℕ, suc, ◌+◌, ◌≤◌, ◌≡◌, refl, ap, ◌⊎◌, inl, inr, true, false, Option, none, some, List, [], ◌∷◌,
  ◌++◌, String, arith, Bool-cases, if◌then◌else◌,
}
use kaos_agents.Prelude.Equality.{◌==◌, string_key}
use kaos_agents.Prelude.Dict.{insert, lookup-insert}
use kaos_agents.Memory.Types.{MemoryItem, tokens}
use kaos_agents.Memory.Section.{Section, tracked, touch, exceeds, get_loop, get}

-- `page` is the longest run of the first items whose tokens, with `used`, stay within the limit.
pub record IsPage (limit : Option ℕ) (used : ℕ) (items page : List MemoryItem) : Type 0 where
  pub rest : List MemoryItem
  pub split : items ≡ page ++ rest
  pub within : (m : ℕ) → limit ≡ some m → (page ≡ []) ⊎ (used + tokens page ≤ m)
  pub longest :
      (rest ≡ [])
      ⊎ ((x : MemoryItem) × (later : List MemoryItem) × (rest ≡ x ∷ later)
          × (exceeds limit (used + tokens page + x.token_count) ≡ true))

page_within :
    (limit : Option ℕ) (used : ℕ) (x : MemoryItem) (page : List MemoryItem)
    → exceeds limit (used + x.token_count) ≡ false
    → ((m : ℕ) → limit ≡ some m → (page ≡ []) ⊎ (used + x.token_count + tokens page ≤ m))
    → (m : ℕ) → limit ≡ some m
    → used + tokens (x ∷ page) ≤ m
unfolding exceeds
page_within none used x page room within m e = cc
page_within (some n) used x page room within m e = elim (within m e) [
  | inl empty ↦ ground (arith, ap tokens empty)
  | inr fits ↦ omega arith
]

get_loop-IsPage :
    (now : ℕ) (limit : Option ℕ) (used : ℕ) (items : List MemoryItem) (s : Section)
    → IsPage limit used items (get_loop now limit used items s).1
unfolding get_loop
get_loop-IsPage now limit used [] s = record {
  rest = [];
  split = refl;
  within = λ m e. inl refl;
  longest = inl refl;
}
get_loop-IsPage now limit used (x ∷ xs) s =
    elim (Bool-cases (exceeds limit (used + x.token_count))) [
      | inl over ↦ rw over record {
        rest = x ∷ xs;
        split = refl;
        within = λ m e. inl refl;
        longest = inr (x, xs, refl, rw add-zero over);
      }
      | inr room ↦
          let p = get_loop-IsPage now limit (used + x.token_count) xs (touch now x s) in
          rw room record {
            rest = p.rest;
            split = ap (λ l. x ∷ l) p.split;
            within = λ m e. inr (page_within limit used x _ room p.within m e);
            longest = elim p.longest [
              | inl done ↦ inl done
              | inr (y, later, e, over) ↦ inr (y, later, e, rw (← add_assoc) over)
            ];
          }
    ]

-- `get` returns the longest run of the oldest items that `max_tokens` allows, and leaves the items
-- and the token counter alone.
pub get-IsPage :
    (now : ℕ) (limit : Option ℕ) (s : Section) → IsPage limit 0 s.items (get now limit s).1
unfolding get
get-IsPage now limit s = get_loop-IsPage now limit 0 s.items s

-- How often an id stands in a list of items.
abbrev pub occurrences : String → List MemoryItem → ℕ
occurrences id [] = 0
occurrences id (x ∷ xs) = if x.id == id then suc (occurrences id xs) else occurrences id xs

tracked-insert :
    (tracking : List (String × ℕ)) (k id : String) (n : ℕ)
    → tracked (insert k n tracking) id ≡ (if k == id then n else tracked tracking id)
unfolding tracked
tracked-insert tracking k id n = elim (Bool-cases (k == id)) [
  | inl same ↦ rw (lookup-insert k id n tracking, tracked) (rw same)
  | inr other ↦ rw (lookup-insert k id n tracking, tracked) (rw other)
]

tracked-touch :
    (now : ℕ) (x : MemoryItem) (s : Section) (id : String)
    → tracked (touch now x s).access_counts id
      ≡ (if x.id == id then suc (tracked s.access_counts id) else tracked s.access_counts id)
unfolding touch
tracked-touch now x s id = elim (Bool-cases (x.id == id)) [
  | inl same ↦
      let e = (string_key.equal_iff x.id id).0 same in
      rw (tracked-insert, same) (omega (arith, ap (tracked s.access_counts) e))
  | inr other ↦ rw (tracked-insert, other)
]

get_loop-tracked :
    (now : ℕ) (limit : Option ℕ) (used : ℕ) (items : List MemoryItem) (s : Section) (id : String)
    → let r = get_loop now limit used items s in
      tracked r.0.access_counts id ≡ tracked s.access_counts id + occurrences id r.1
unfolding get_loop
get_loop-tracked now limit used [] s id = omega arith
get_loop-tracked now limit used (x ∷ xs) s id =
    elim (Bool-cases (exceeds limit (used + x.token_count))) [
      | inl over ↦ rw over (omega arith)
      | inr room ↦ rw room (
          ground (
            arith,
            get_loop-tracked now limit (used + x.token_count) xs (touch now x s) id,
            tracked-touch now x s id,
          ))
    ]

get_loop-items :
    (now : ℕ) (limit : Option ℕ) (used : ℕ) (items : List MemoryItem) (s : Section)
    → let t = (get_loop now limit used items s).0 in
      (t.items ≡ s.items) × (t.token_count ≡ s.token_count) × (t.config ≡ s.config)
unfolding get_loop touch
get_loop-items now limit used [] s = (refl, refl, refl)
get_loop-items now limit used (x ∷ xs) s =
    elim (Bool-cases (exceeds limit (used + x.token_count))) [
      | inl over ↦ rw over (refl, refl, refl)
      | inr room ↦ rw room (get_loop-items now limit (used + x.token_count) xs (touch now x s))
    ]

-- `get` counts one access for each item of the page and no other, and leaves the items, the token
-- counter and the configuration alone.
pub get-tracked :
    (now : ℕ) (limit : Option ℕ) (s : Section) (id : String)
    → let (t, page) = get now limit s in
      (tracked t.access_counts id ≡ tracked s.access_counts id + occurrences id page)
      × (t.items ≡ s.items)
      × (t.token_count ≡ s.token_count)
      × (t.config ≡ s.config)
unfolding get
get-tracked now limit s id =
    let (items, count, config) = get_loop-items now limit 0 s.items s in
    (get_loop-tracked now limit 0 s.items s id, items, count, config)
