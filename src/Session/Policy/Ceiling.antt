-- ===== src/Session/Policy/Ceiling.antt =====
-- types/session_policy.py and `_consider_elevation`: the groups that a changed policy allows.
use kaos_agents.Prelude.{
  ◌≡◌, refl, ap, ◌∙◌, subst, inl, inr, ℕ, true, false, not, ◌&&◌, ◌||◌, Option, none, some, List,
  [], ◌∷◌, String, filter, arith, Bool-cases, Option-cases,
}
use kaos_agents.Prelude.Equality.{string_key, contains, contains-append, contains-filter}
use kaos_agents.Prelude.Dict.{lookup}
use kaos_agents.Session.Policy.{
  Groups, SessionPolicy, for_persona, persona_soft_ceilings, is_empty, with_added_groups,
  with_removed_groups, can_auto_elevate, consider_elevation, Change, adds, removes, elevates,
  change, change_all,
}

is_empty-contains :
    (groups : Groups) (g : String) → is_empty groups ≡ true → contains groups g ≡ false
unfolding is_empty contains
is_empty-contains [] g h = refl
is_empty-contains (x ∷ groups) g h = absurd (clash h)
  where
    clash : false ≡ true → ⊥
    clash e = cc

with_added_groups-contains :
    (groups : Groups) (p : SessionPolicy) (g : String)
    → contains (with_added_groups groups p).allowed_groups g
      ≡ (contains p.allowed_groups g || contains groups g && contains p.soft_ceiling g)
unfolding with_added_groups
with_added_groups-contains groups p g =
    let addable = filter (λ x. contains p.soft_ceiling x) groups in
    elim (Bool-cases (is_empty addable)) [
      | inl nothing ↦ rw nothing (
          ground (
            arith,
            is_empty-contains addable g nothing,
            contains-filter (λ x. contains p.soft_ceiling x) groups g,
          ))
      | inr something ↦ rw something (
          ground (
            arith,
            contains-append p.allowed_groups addable g,
            contains-filter (λ x. contains p.soft_ceiling x) groups g,
          ))
    ]

-- After an elevation exactly those groups are allowed that were before, and, if the policy elevates by
-- itself, those of the dropped groups that it elevates without a confirmation.
pub consider_elevation-contains :
    (dropped : Groups) (count : ℕ) (p : SessionPolicy) (g : String)
    → contains (consider_elevation dropped count p).policy.allowed_groups g ≡ (
        contains p.allowed_groups g
        || p.auto_elevate && (contains dropped g && can_auto_elevate g p))
unfolding consider_elevation can_auto_elevate
consider_elevation-contains dropped count p g =
    let targets = filter (λ x. can_auto_elevate x p) dropped in
    let added = with_added_groups-contains targets p g in
    let kept = contains-filter (λ x. can_auto_elevate x p) dropped g in
    elim (Bool-cases (is_empty dropped || not p.auto_elevate)) [
      | inl idle ↦ rw idle (ground (arith, is_empty-contains dropped g))
      | inr active ↦ rw active (elim (Bool-cases (is_empty targets)) [
        | inl nothing ↦ rw nothing (ground (arith, is_empty-contains targets g nothing, kept))
        | inr something ↦ rw something (ground (arith, added, kept))
      ])
    ]

-- Every allowed group is below the ceiling.
abbrev pub IsWithin : Groups → SessionPolicy → Type 0
IsWithin ceiling p =
    (p.soft_ceiling ≡ ceiling)
    × ((g : String) → contains p.allowed_groups g ≡ true → contains ceiling g ≡ true)

change-ceiling : (c : Change) (p : SessionPolicy) → (change c p).soft_ceiling ≡ p.soft_ceiling
unfolding change with_added_groups with_removed_groups consider_elevation
change-ceiling (adds groups) p = ground arith
change-ceiling (removes groups) p = refl
change-ceiling (elevates dropped) p = ground arith

change-allowed :
    (c : Change) (p : SessionPolicy) (g : String)
    → contains (change c p).allowed_groups g ≡ true
    → (contains p.allowed_groups g || contains p.soft_ceiling g) ≡ true
unfolding change with_removed_groups can_auto_elevate
change-allowed (adds groups) p g h = ground (arith, with_added_groups-contains groups p g)
change-allowed (removes groups) p g h =
    ground (arith, contains-filter (λ x. not (contains groups x)) p.allowed_groups g)
change-allowed (elevates dropped) p g h = ground (arith, consider_elevation-contains dropped 0 p g)

pub change_all-IsWithin :
    (cs : List Change) (ceiling : Groups) (p : SessionPolicy)
    → IsWithin ceiling p
    → IsWithin ceiling (change_all cs p)
unfolding change_all
change_all-IsWithin [] ceiling p h = h
change_all-IsWithin (c ∷ cs) ceiling p (e, h) = change_all-IsWithin cs ceiling (change c p) (
  change-ceiling c p ∙ e,
  λ g k. ground (arith, change-allowed c p g k, h g, ap (λ s. contains s g) e),
)

abbrev SameGroups : Option SessionPolicy → Type 0
SameGroups none = Unit
SameGroups (some p) = p.allowed_groups ≡ p.soft_ceiling

for_persona-allowed :
    (persona : String) (p : SessionPolicy)
    → for_persona persona ≡ some p
    → p.allowed_groups ≡ p.soft_ceiling
unfolding for_persona
for_persona-allowed persona p made = elim (Option-cases (lookup persona persona_soft_ceilings)) [
  | inl unknown ↦ absurd (clash p (rw (unknown, for_persona) at made))
  | inr (ceiling, known) ↦ subst (λ o. SameGroups o) (rw (known, for_persona) at made) refl
]
  where
    clash : (q : SessionPolicy) → none ≡ some q → ⊥
    clash q e = cc

-- However the policy of a persona is changed, every group that it allows stays below the ceiling of
-- the persona.
pub for_persona-IsWithin :
    (persona : String) (p : SessionPolicy) (cs : List Change)
    → for_persona persona ≡ some p
    → IsWithin p.soft_ceiling (change_all cs p)
for_persona-IsWithin persona p cs made =
    change_all-IsWithin cs p.soft_ceiling p (
      refl,
      λ g k. subst (λ groups. contains groups g ≡ true) (for_persona-allowed persona p made) k,
    )
