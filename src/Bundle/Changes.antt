-- ===== src/Bundle/Changes.antt =====
-- Which documents a bundle's lifecycle reports as changed.
use mathlib.Core.List.{flat_map}
use mathlib.Core.Option
use a2ex.Base.{
  String, List, [], ◌∷◌, ◌++◌, map, Option, none, some, Bool, true, false, ◌==◌ as same_text, ◌≡◌,
  refl, ◌↔◌, ◌⊎◌, inl, inr, arith, append-eq-nil_iff, Bool-cases, eq_iff, ◌||◌, ◌&&◌, if◌then◌else◌,
}
use a2ex.Base.Equality.{◌==◌, ◌!=◌, ne_iff, text_eq, bool_eq, option_eq}
use a2ex.Compiler.Venues.{Mem, mem-sort, mem-dedup}
use a2ex.Bundle.Model.{
  BundleDocumentRole, BundleDocumentLifecycleChangeKind, role_eq, BundleLifecycleSnapshot,
  BundleLifecycleDocumentSnapshot,
}
use a2ex.Bundle.Snapshots.{last_with_id, document_by_id}
use a2ex.Bundle.Lifecycle.{
  ids_of, document_in, change_of, document_changes, content_differs, document_ids,
  diff_changed_documents,
}

-- A document is unchanged if it is the entry document before and after, whatever it says, or if all
-- but its title is the same.
abbrev Unchanged : BundleLifecycleDocumentSnapshot → BundleLifecycleDocumentSnapshot → Type 0
Unchanged previous current =
    ((previous.role ≡ BundleDocumentRole.entry) × (current.role ≡ BundleDocumentRole.entry))
    ⊎ ((previous.revision ≡ current.revision)
        × (previous.content_fingerprint ≡ current.content_fingerprint)
        × (previous.source_url ≡ current.source_url)
        × (previous.declared_revision ≡ current.declared_revision)
        × (previous.required ≡ current.required)
        × (previous.role ≡ current.role))

-- The document is in neither load, or in both and unchanged.
abbrev pub IsKept :
    Option BundleLifecycleDocumentSnapshot → Option BundleLifecycleDocumentSnapshot → Type 0
IsKept none none = Unit
IsKept (some previous) (some current) = Unchanged previous current
IsKept _ _ = ⊥

or_iff :
    {P Q : Type 0} {a b : Bool}
    → ((a ≡ false) ↔ P)
    → ((b ≡ false) ↔ Q)
    → ((a || b) ≡ false) ↔ (P × Q)
or_iff {a = a} {b = b} p q = (
  λ h. (p.0 (ground arith), q.0 (ground arith)),
  λ h. let ea = p.1 h.0 in let eb = q.1 h.1 in ground arith,
)

content_differs_iff :
    (previous current : BundleLifecycleDocumentSnapshot)
    → (content_differs previous current ≡ false) ↔ (
        (previous.content_fingerprint ≡ current.content_fingerprint)
        × (previous.source_url ≡ current.source_url)
        × (previous.declared_revision ≡ current.declared_revision)
        × (previous.required ≡ current.required)
        × (previous.role ≡ current.role))
content_differs_iff p c =
    let all =
      or_iff
        (or_iff
          (or_iff
            (or_iff (ne_iff p.content_fingerprint c.content_fingerprint)
              (ne_iff p.source_url c.source_url))
            (ne_iff p.declared_revision c.declared_revision))
          (ne_iff p.required c.required))
        (ne_iff p.role c.role) in
    (
      λ h. let ((((a, b), c), d), e) = all.0 h in (a, b, c, d, e),
      λ (a, b, c, d, e). all.1 ((((a, b), c), d), e),
    )

and_iff :
    {P Q : Type 0} {a b : Bool} → ((a ≡ true) ↔ P) → ((b ≡ true) ↔ Q) → ((a && b) ≡ true) ↔ (P × Q)
and_iff {a = a} {b = b} p q = (
  λ h. (p.0 (ground arith), q.0 (ground arith)),
  λ h. let ea = p.1 h.0 in let eb = q.1 h.1 in ground arith,
)

if_nil_iff :
    {D : Type 0} (test : Bool) (d : D) → ((if test then d ∷ [] else []) ≡ []) ↔ (test ≡ false)
if_nil_iff true d = (λ h. cc, λ h. cc)
if_nil_iff false d = (λ h. refl, λ h. refl)

-- the two changes that a document other than the entry document can have
changes_of_others :
    (p c : BundleLifecycleDocumentSnapshot)
    → (((if p.revision != c.revision
            then change_of c BundleDocumentLifecycleChangeKind.revision_changed p.revision
                c.revision
              ∷ []
            else [])
          ++ (if content_differs p c
              then change_of c BundleDocumentLifecycleChangeKind.content_changed p.revision
                  c.revision
                ∷ []
              else []))
        ≡ [])
      ↔ ((p.revision ≡ c.revision)
          × (p.content_fingerprint ≡ c.content_fingerprint)
          × (p.source_url ≡ c.source_url)
          × (p.declared_revision ≡ c.declared_revision)
          × (p.required ≡ c.required)
          × (p.role ≡ c.role))
changes_of_others p c =
    let revision = if_nil_iff (p.revision != c.revision) _ in
    let content = if_nil_iff (content_differs p c) _ in
    let revisions = ne_iff p.revision c.revision in
    let contents = content_differs_iff p c in
    (
      λ h.
          let (hr, hc) = (append-eq-nil_iff _ _).0 h in
          let (a, b, c, d, e) = contents.0 (content.0 hc) in
          (revisions.0 (revision.0 hr), a, b, c, d, e),
      λ h.
          (append-eq-nil_iff _ _).1
            (revision.1 (revisions.1 h.0), content.1 (contents.1 (h.1, h.2, h.3, h.4, h.5))),
    )

changes_of_both :
    (previous current : BundleLifecycleDocumentSnapshot)
    → (document_changes (some previous) (some current) ≡ []) ↔ Unchanged previous current
unfolding document_changes
changes_of_both p c =
    let both =
      and_iff (role_eq.same_iff p.role BundleDocumentRole.entry)
        (role_eq.same_iff c.role BundleDocumentRole.entry) in
    let rest = changes_of_others p c in
    elim (Bool-cases
      ((p.role == BundleDocumentRole.entry) && (c.role == BundleDocumentRole.entry))) [
        | inl entries ↦ rw entries (λ h. inl (both.0 entries), λ h. refl)
        | inr others ↦ rw others (
          λ h. inr (rest.0 h),
          λ h. elim h [ inl entries ↦ cc (both.1 entries) | inr same ↦ rest.1 same ],
        )
      ]

-- the changes at an id are none exactly when the document is kept
document_changes-eq-nil_iff :
    (previous current : Option BundleLifecycleDocumentSnapshot)
    → (document_changes previous current ≡ []) ↔ IsKept previous current
unfolding document_changes
document_changes-eq-nil_iff none none = (λ h. tt, λ h. refl)
document_changes-eq-nil_iff none (some c) = (λ h. cc, λ h. absurd h)
document_changes-eq-nil_iff (some p) none = (λ h. cc, λ h. absurd h)
document_changes-eq-nil_iff (some p) (some c) = changes_of_both p c

neither : document_changes none none ≡ []
unfolding document_changes
neither = refl

module _ {B : Type 0} (f : String → List B) where
  nothing_at : (xs : List String) (x : String) → flat_map f xs ≡ [] → Mem x xs → f x ≡ []
  unfolding flat_map
  nothing_at [] x h m = absurd m
  nothing_at (y ∷ ys) x h (inl here) = rw here ((append-eq-nil_iff (f y) (flat_map f ys)).0 h).0
  nothing_at (y ∷ ys) x h (inr there) =
      nothing_at ys x ((append-eq-nil_iff (f y) (flat_map f ys)).0 h).1 there

  nothing_anywhere : (xs : List String) → ((x : String) → f x ≡ []) → flat_map f xs ≡ []
  unfolding flat_map
  nothing_anywhere [] h = refl
  nothing_anywhere (y ∷ ys) h =
      (append-eq-nil_iff (f y) (flat_map f ys)).1 (h y, nothing_anywhere ys h)

mem-append_left : (x : String) (xs ys : List String) → Mem x xs → Mem x (xs ++ ys)
mem-append_left x (y ∷ xs) ys (inl here) = inl here
mem-append_left x (y ∷ xs) ys (inr there) = inr (mem-append_left x xs ys there)
mem-append_left x [] ys m = absurd m

mem-append_right : (x : String) (xs ys : List String) → Mem x ys → Mem x (xs ++ ys)
mem-append_right x [] ys m = m
mem-append_right x (y ∷ xs) ys m = inr (mem-append_right x xs ys m)

last_with_id-cases :
    {A : Type 0} (id_of : A → String) (id : String) (xs : List A)
    → Mem id (map id_of xs) ⊎ (last_with_id id_of id xs ≡ none)
unfolding last_with_id
last_with_id-cases id_of id [] = inr refl
last_with_id-cases id_of id (x ∷ xs) = elim (last_with_id-cases id_of id xs) [
  | inl later ↦ inl (inr later)
  | inr nowhere ↦ elim (Bool-cases (same_text (id_of x) id)) [
    | inl here ↦ inl (inl (ground (arith, eq_iff (id_of x) id)))
    | inr other ↦ inr (rw (nowhere, other))
  ]
]

pub document_in-cases :
    (snapshot : Option BundleLifecycleSnapshot) (id : String)
    → Mem id (ids_of snapshot) ⊎ (document_in snapshot id ≡ none)
unfolding document_in document_by_id Option.bind
document_in-cases none id = inr refl
document_in-cases (some snapshot) id = last_with_id-cases _ id snapshot.documents

mem-document_ids :
    (previous current : Option BundleLifecycleSnapshot) (id : String)
    → Mem id (ids_of previous ++ ids_of current)
    → Mem id (document_ids previous current)
unfolding document_ids
mem-document_ids previous current id m =
    (mem-dedup id _).1 ((mem-sort id (ids_of previous ++ ids_of current)).1 m)

nothing_at_id :
    (previous current : Option BundleLifecycleSnapshot)
    → diff_changed_documents previous current ≡ []
    → (id : String) → document_changes (document_in previous id) (document_in current id) ≡ []
unfolding diff_changed_documents
nothing_at_id previous current h id =
    let found = λ (m : Mem id (ids_of previous ++ ids_of current)).
      nothing_at (λ i. document_changes (document_in previous i) (document_in current i))
        (document_ids previous current) id h (mem-document_ids previous current id m) in
    elim (document_in-cases previous id) [
      | inl before ↦ found (mem-append_left id (ids_of previous) (ids_of current) before)
      | inr new ↦ elim (document_in-cases current id) [
        | inl now ↦ found (mem-append_right id (ids_of previous) (ids_of current) now)
        | inr gone ↦ rw (new, gone) neither
      ]
    ]

-- No document is reported as changed exactly when each id is in neither load, or in both with its
-- document unchanged: the entry document before and after, or the same in all but its title.
pub no_document_changed_iff :
    (previous current : Option BundleLifecycleSnapshot)
    → (diff_changed_documents previous current ≡ [])
      ↔ ((id : String) → IsKept (document_in previous id) (document_in current id))
unfolding diff_changed_documents
no_document_changed_iff previous current = (
  λ h id.
      (document_changes-eq-nil_iff (document_in previous id) (document_in current id)).0
        (nothing_at_id previous current h id),
  λ kept. nothing_anywhere _ (document_ids previous current) (λ id.
      (document_changes-eq-nil_iff (document_in previous id) (document_in current id)).1 (kept id)),
)
