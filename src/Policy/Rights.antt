-- ===== src/Policy/Rights.antt =====
-- Which sessions pass which check, from the names of their profiles.
use Prim.Native.String
use emacs_llvm.Base.{
  ◌≡◌, ◌≢◌, ◌↔◌, refl, ◌++◌, String, Bool, true, false, Option, none, some, arith, str_eq, eq_iff,
  ◌⊎◌, inl, inr, sym, ◌∙◌, Bool-cases,
}
use emacs_llvm.Base.Bytes.{Text, codes}
use emacs_llvm.Protocol.Errors.{OperatorError, ok, err, operator_error, policy_denied}
use emacs_llvm.Sessions.{EmacsSession, ExecutionChannel, semantic, internal_keys, native_keys}
use emacs_llvm.Policy.{
  read_only, workspace_edit, trusted_local, profile, assert_mutation, assert_channel,
  assert_arbitrary_elisp,
}

-- A profile is one of three, by its name, or its name is refused.
pub data Known (name : String) : Type 0 where
  reads : name ≡ "read_only" → profile name ≡ ok read_only → Known name
  edits : name ≡ "workspace_edit" → profile name ≡ ok workspace_edit → Known name
  trusted : name ≡ "trusted_local" → profile name ≡ ok trusted_local → Known name
  unknown :
      (e : OperatorError)
      → name ≢ "read_only"
      → name ≢ "workspace_edit"
      → name ≢ "trusted_local"
      → profile name ≡ err e
      → Known name

str_ne : (a b : String) → str_eq a b ≡ false → a ≢ b
str_ne a b h e = ground (arith, eq_iff a b)

pub known : (name : String) → Known name
unfolding profile
known name = elim (Bool-cases (str_eq name "read_only")) [
  | inl r ↦ reads (ground (arith, eq_iff name "read_only")) (rw r refl)
  | inr r ↦ elim (Bool-cases (str_eq name "workspace_edit")) [
    | inl w ↦ edits (ground (arith, eq_iff name "workspace_edit")) (rw (r, w) refl)
    | inr w ↦ elim (Bool-cases (str_eq name "trusted_local")) [
      | inl t ↦ trusted (ground (arith, eq_iff name "trusted_local")) (rw (r, w, t) refl)
      | inr t ↦
          unknown
            (operator_error policy_denied
              (String.◌++◌ "Unknown permission profile: " (String.◌++◌ name ".")) none)
            (str_ne name "read_only" r) (str_ne name "workspace_edit" w)
            (str_ne name "trusted_local" t) (rw (r, w, t) refl)
    ]
  ]
]

-- No session, whatever its profile, may evaluate arbitrary Emacs Lisp.
assert_arbitrary_elisp_denied : (session : EmacsSession) → assert_arbitrary_elisp session ≢ ok tt
unfolding assert_arbitrary_elisp
assert_arbitrary_elisp_denied session = elim (known session.permission_profile) [
  | reads n e ↦ rw e (λ h. cc)
  | edits n e ↦ rw e (λ h. cc)
  | trusted n e ↦ rw e (λ h. cc)
  | unknown x r w t e ↦ rw e (λ h. cc)
]

reads_not_edits : ◌≢◌ {A = String} "read_only" "workspace_edit"
reads_not_edits = ground (arith, eq_iff "read_only" "workspace_edit")

reads_not_trusted : ◌≢◌ {A = String} "read_only" "trusted_local"
reads_not_trusted = ground (arith, eq_iff "read_only" "trusted_local")

edits_not_trusted : ◌≢◌ {A = String} "workspace_edit" "trusted_local"
edits_not_trusted = ground (arith, eq_iff "workspace_edit" "trusted_local")

-- A session may change something exactly if its profile is `workspace_edit` or `trusted_local`.
assert_mutation_iff :
    (session : EmacsSession)
    → (assert_mutation session ≡ ok tt) ↔ (
        (session.permission_profile ≡ "workspace_edit")
        ⊎ (session.permission_profile ≡ "trusted_local"))
unfolding assert_mutation
assert_mutation_iff session = elim (known session.permission_profile) [
  | reads n e ↦ rw e (
    λ h. cc,
    λ h. elim h [
      | inl x ↦ absurd (reads_not_edits (sym n ∙ x))
      | inr x ↦ absurd (reads_not_trusted (sym n ∙ x))
    ],
  )
  | edits n e ↦ rw e (λ h. inl n, λ h. refl)
  | trusted n e ↦ rw e (λ h. inr n, λ h. refl)
  | unknown x r w t e ↦ rw e (λ h. cc, λ h. elim h [ inl y ↦ absurd (w y) | inr y ↦ absurd (t y) ])
]

-- A session may use a channel exactly if it has it and, where the channel is that of native keys,
-- its profile is `trusted_local`.
pub assert_channel_iff :
    (session : EmacsSession) (channel : ExecutionChannel)
    → (assert_channel session channel ≡ ok tt) ↔ (
        (session.capabilities.channels channel ≡ true)
        × (channel ≡ native_keys → session.permission_profile ≡ "trusted_local"))
unfolding assert_channel
assert_channel_iff session semantic = elim (Bool-cases (session.capabilities.channels semantic)) [
  | inl h ↦ rw h (λ e. (refl, λ k. cc), λ e. refl)
  | inr h ↦ rw h (λ e. cc, λ e. cc (e.0))
]
assert_channel_iff session internal_keys =
    elim (Bool-cases (session.capabilities.channels internal_keys)) [
      | inl h ↦ rw h (λ e. (refl, λ k. cc), λ e. refl)
      | inr h ↦ rw h (λ e. cc, λ e. cc (e.0))
    ]
assert_channel_iff session native_keys =
    elim (Bool-cases (session.capabilities.channels native_keys)) [
      | inl h ↦ rw h (elim (known session.permission_profile) [
        | reads n e ↦ rw e (λ k. cc, λ k. absurd (reads_not_trusted (sym n ∙ k.1 refl)))
        | edits n e ↦ rw e (λ k. cc, λ k. absurd (edits_not_trusted (sym n ∙ k.1 refl)))
        | trusted n e ↦ rw e (λ k. (refl, λ same. n), λ k. refl)
        | unknown x r w t e ↦ rw e (λ k. cc, λ k. absurd (t (k.1 refl)))
      ])
      | inr h ↦ rw h (λ e. cc, λ e. cc (e.0))
    ]

-- The text begins with two dots.
abbrev pub BeginsUp : String → Type 0
BeginsUp relative = (rest : Text) × (codes relative ≡ codes ".." ++ rest)

module _ (resolve : String → String) (relative_to : String → String → String)
    (is_absolute : String → Bool) where
  -- The session has a root, which is not empty, and the path from the root to the file is empty, or
  -- neither begins with two dots nor is absolute.
  abbrev pub Inside : Option String → String → Type 0
  Inside o file =
      (root : String) × (o ≡ some root)
      × (root ≢ "")
      × let relative = relative_to (resolve root) (resolve file) in
        (relative ≡ "") ⊎ ((¬ (BeginsUp relative)) × (is_absolute relative ≡ false))
