-- ===== src/Router/Registry/Choice.antt =====
-- packages/mcp-server/src/bridgeRegistry.ts: the instance that a call is for.
use emacs_llvm.Base.{
  String, false, Option, none, some, List, [], ◌∷◌, ◌≡◌, ◌≢◌, arith, eq_iff, str_eq, Bool-cases,
  inl, inr, ◌⊎◌, subst, if◌then◌else◌,
}
use emacs_llvm.Protocol.Errors.{ok}
use emacs_llvm.Router.State.{InstanceRecord, Discovered}
use emacs_llvm.Router.Registry.{live_of, named, hit_of, only_one, choose}

-- An instance stands among those that were found, and is not stale.
abbrev pub IsLive : InstanceRecord → List Discovered → Type 0
IsLive r [] = ⊥
IsLive r (d ∷ ds) = ((d.instance ≡ r) × (d.stale ≡ false)) ⊎ IsLive r ds

-- Whatever is picked from the live ones.
abbrev IsIn : InstanceRecord → List InstanceRecord → Type 0
IsIn r [] = ⊥
IsIn r (q ∷ qs) = (q ≡ r) ⊎ IsIn r qs

live_of-IsLive : (ds : List Discovered) (r : InstanceRecord) → IsIn r (live_of ds) → IsLive r ds
live_of-IsLive [] r h = h
live_of-IsLive (d ∷ ds) r h = elim (Bool-cases d.stale) [
  | inl stale ↦ inr (
      live_of-IsLive ds r
        (subst (λ b. IsIn r (if b then live_of ds else d.instance ∷ live_of ds)) stale h))
  | inr fresh ↦
      elim (subst (λ b. IsIn r (if b then live_of ds else d.instance ∷ live_of ds)) fresh h) [
        | inl same ↦ inl (same, fresh)
        | inr later ↦ inr (live_of-IsLive ds r later)
      ]
]

named_found :
    (id : String) (rs : List InstanceRecord) (r : InstanceRecord)
    → named id rs ≡ some r
    → IsIn r rs × (r.instance_id ≡ id)
named_found id [] r h = cc
named_found id (q ∷ rs) r h = elim (Bool-cases (str_eq q.instance_id id)) [
  | inl same ↦ (inl (ground (arith, same)), ground (arith, eq_iff q.instance_id id))
  | inr other ↦ let (there, own) = named_found id rs r (rw (other, named) at h) in (inr there, own)
]

hit_of_found :
    (id : String) (o : Option InstanceRecord) (r : InstanceRecord) → hit_of id o ≡ ok r → o ≡ some r
unfolding hit_of
hit_of_found id none r h = cc
hit_of_found id (some q) r h = ground (arith, h)

-- The instance that is chosen for an identifier, which is not empty, is one that was found, is not
-- stale, and has that identifier.
choose_named :
    (id : String) (ds : List Discovered) (r : InstanceRecord)
    → id ≢ ""
    → choose (some id) (live_of ds) ≡ ok r
    → IsLive r ds × (r.instance_id ≡ id)
unfolding choose
choose_named id ds r proper h =
    let hit : hit_of id (named id (live_of ds)) ≡ ok r = ground (arith, eq_iff id "") in
    let (there, own) = named_found id (live_of ds) r (hit_of_found id _ r hit) in
    (live_of-IsLive ds r there, own)

only_one_found : (rs : List InstanceRecord) (r : InstanceRecord) → only_one rs ≡ ok r → IsIn r rs
unfolding only_one
only_one_found [] r h = cc
only_one_found (q ∷ []) r h = inl (ground (arith, h))
only_one_found (q ∷ q' ∷ rs) r h = cc

-- Whichever identifier is given, the instance that is chosen was found and is not stale.
pub choose-IsLive :
    (id : String) (ds : List Discovered) (r : InstanceRecord)
    → choose (some id) (live_of ds) ≡ ok r
    → IsLive r ds × (id ≢ "" → r.instance_id ≡ id)
unfolding choose
choose-IsLive id ds r h = elim (Bool-cases (str_eq id "")) [
  | inl empty ↦ (
    live_of-IsLive ds r (only_one_found (live_of ds) r (rw empty at h)),
    λ proper. absurd (proper (ground (arith, eq_iff id ""))),
  )
  | inr proper ↦
      let (there, own) = choose_named id ds r (λ e. ground (arith, eq_iff id "")) h in
      (there, λ p. own)
]
