-- ===== src/Sessions/Listing.antt =====
-- Listing the sessions closes exactly those that have expired.
use emacs_llvm.Base.{
  ℕ, ◌≡◌, refl, sym, ap, ◌∙◌, subst, String, Bool, none, some, [], ◌∷◌, ◌++◌, map, arith, eq_iff,
  eq_refl, if◌then◌else◌, Bool-cases, inl, inr, append_assoc, not,
}
use emacs_llvm.Base.Map.{JsMap, get, delete, retain, Distinct, delete_of_get-none}
use emacs_llvm.Base.Evict.{get_middle, get-append_none}
use emacs_llvm.Sessions.{EmacsSession, SessionManager, close, is_expired, prune_each, list_sessions}

close_found :
    (id : String) (session : EmacsSession) (m : SessionManager)
    → get id m.sessions ≡ some session
    → ((close id m).1.sessions ≡ delete id m.sessions) × ((close id m).1.ttl_ms ≡ m.ttl_ms)
unfolding close
close_found id session m found = rw (found, close) (refl, refl)

-- Deleting the entry in the middle leaves what is on its two sides.
delete_middle :
    (id : String) (session : EmacsSession) (xs ys : JsMap EmacsSession)
    → Distinct (xs ++ (id, session) ∷ ys)
    → delete id (xs ++ (id, session) ∷ ys) ≡ xs ++ ys
unfolding delete get
delete_middle id session [] ys (fresh, d) = rw (eq_refl id) (delete_of_get-none id ys fresh)
delete_middle id session ((j, s) ∷ xs) ys (fresh, d) =
    let apart = (get-append_none j xs ((id, session) ∷ ys) fresh).1 in
    ground (arith, eq_iff j id, eq_iff id j, delete_middle id session xs ys d)

Distinct-middle :
    (id : String) (session : EmacsSession) (xs ys : JsMap EmacsSession)
    → Distinct (xs ++ (id, session) ∷ ys)
    → Distinct (xs ++ ys)
unfolding get
Distinct-middle id session [] ys (fresh, d) = d
Distinct-middle id session ((j, s) ∷ xs) ys (fresh, d) =
    (absent xs fresh, Distinct-middle id session xs ys d)
  where
    absent :
        (zs : JsMap EmacsSession)
        → get j (zs ++ (id, session) ∷ ys) ≡ none
        → get j (zs ++ ys) ≡ none
    absent [] h = ground arith
    absent ((k, t) ∷ zs) h = ground (arith, absent zs)

-- The entries that have not expired.
abbrev pub is_current : ℕ → ℕ → EmacsSession → Bool
is_current ttl now session = not (is_expired ttl now session)

prune_each_lem :
    (now : ℕ) (seen entries : JsMap EmacsSession) (m : SessionManager)
    → m.sessions ≡ seen ++ entries
    → Distinct (seen ++ entries)
    → (prune_each now entries m).sessions ≡ seen ++ retain (is_current m.ttl_ms now) entries
unfolding prune_each retain
prune_each_lem now seen [] m whole d = whole
prune_each_lem now seen ((id, session) ∷ rest) m whole d =
    let left = retain (is_current m.ttl_ms now) rest in
    elim (Bool-cases (is_expired m.ttl_ms now session)) [
      | inl old ↦
          let found = ap (get id) whole ∙ get_middle id session seen rest d in
          let (less, same) = close_found id session m found in
          let ih =
            prune_each_lem now seen rest (close id m).1
              (less ∙ ap (delete id) whole ∙ delete_middle id session seen rest d)
              (Distinct-middle id session seen rest d) in
          ap (λ b. (prune_each now rest (if b then (close id m).1 else m)).sessions) old
          ∙ ih
          ∙ ap (λ t. seen ++ retain (is_current t now) rest) same
          ∙ sym (ap (λ b. seen ++ (if not b then (id, session) ∷ left else left)) old)
      | inr young ↦
          let shift = append_assoc seen ((id, session) ∷ []) rest in
          ap (λ b. (prune_each now rest (if b then (close id m).1 else m)).sessions) young
          ∙ prune_each_lem now (seen ++ (id, session) ∷ []) rest m (whole ∙ sym shift)
              (subst (λ t. Distinct t) (sym shift) d)
          ∙ append_assoc seen ((id, session) ∷ []) left
          ∙ sym (ap (λ b. seen ++ (if not b then (id, session) ∷ left else left)) young)
    ]

-- With distinct identifiers, the list is that of the sessions that have not expired, in the order of their opening, and the
-- manager keeps exactly these.
pub list_sessions_lem :
    (now : ℕ) (m : SessionManager)
    → Distinct m.sessions
    → ((list_sessions now m).0 ≡ map (λ e. e.1) (retain (is_current m.ttl_ms now) m.sessions))
      × ((list_sessions now m).1.sessions ≡ retain (is_current m.ttl_ms now) m.sessions)
unfolding list_sessions
list_sessions_lem now m d =
    let whole = prune_each_lem now [] m.sessions m refl d in (ap (map (λ e. e.1)) whole, whole)
