-- ===== src/Bundle/Parser/Assembly/Partition.antt =====
-- What the loop of `build_bundle` sorts out of documents that were parsed.
use mathlib.Core.HLevel.{⊥_prop}
use mathlib.Core.Logic.Or
use mathlib.Core.List.{
  Mem, Mem-prop, Nodup, Nodup-nil, Nodup-cons, mem-cons_self, mem-cons_of_mem, not-mem-nil,
  eq-or-mem_of_mem-cons,
}
use a2ex.Base.{
  String, List, [], ◌∷◌, map, keep, Option, none, some, is_some, get_or, Bool, true, false, not,
  ◌≡◌, refl, sym, ap, inl, inr, arith, Bool-cases, All, eq_iff,
}
use a2ex.Base.Equality.{contains, text_eq}
use a2ex.Bundle.Model.{BundleDocumentRole, role_eq}
use a2ex.Bundle.Parser.Types.{ParsedDocument}
use a2ex.Bundle.Parser.Assembly.{
  Sorted, is_entry, add_entry_document, add_supporting_document, sort_documents,
}
use a2ex.Bundle.Parser.Assembly.Shape.{HasValues, IsReady, parsed_ids}

-- the documents that are not the entry document
abbrev pub rest_of : List ParsedDocument → List ParsedDocument
rest_of documents = keep (λ p. not (is_entry p)) documents

abbrev pub roles_of : List ParsedDocument → List BundleDocumentRole
roles_of documents = map (λ p. p.document.role) documents

mem-rest_of :
    (id : String) (documents : List ParsedDocument)
    → Mem id (parsed_ids (rest_of documents))
    → Mem id (parsed_ids documents)
mem-rest_of id [] m = m
mem-rest_of id (p ∷ ps) m = elim (Bool-cases (is_entry p)) [
  | inl entry ↦ mem-cons_of_mem p.document.document_id (mem-rest_of id ps (rw entry at m))
  | inr other ↦
      Or.elim Mem-prop (eq-or-mem_of_mem-cons (rw other at m)) (λ here. rw here mem-cons_self)
        (λ there. mem-cons_of_mem p.document.document_id (mem-rest_of id ps there))
]

-- the entry document is not among the others
pub skill-not-rest_of :
    (documents : List ParsedDocument) → Mem "skill" (parsed_ids (rest_of documents)) → ⊥
skill-not-rest_of [] m = not-mem-nil m
skill-not-rest_of (p ∷ ps) m = elim (Bool-cases (is_entry p)) [
  | inl entry ↦ skill-not-rest_of ps (rw entry at m)
  | inr other ↦
      Or.elim ⊥_prop (eq-or-mem_of_mem-cons (rw other at m))
        (λ here. let same = (eq_iff p.document.document_id "skill").1 (sym here) in ground arith)
        (λ there. skill-not-rest_of ps there)
]

pub Nodup-rest_of :
    (documents : List ParsedDocument)
    → Nodup (parsed_ids documents)
    → Nodup (parsed_ids (rest_of documents))
Nodup-rest_of [] h = Nodup-nil
Nodup-rest_of (p ∷ ps) h = elim (Bool-cases (is_entry p)) [
  | inl entry ↦ rw entry (Nodup-rest_of ps (Nodup-cons.0 h).1)
  | inr other ↦ rw other (
      Nodup-cons.1 (
        λ m. (Nodup-cons.0 h).0 (mem-rest_of p.document.document_id ps m),
        Nodup-rest_of ps (Nodup-cons.0 h).1,
      ))
]

add_entry_document-lem :
    (again : Bool) (p : ParsedDocument) (later : Sorted)
    → ((add_entry_document again p later).supporting_documents ≡ later.supporting_documents)
      × ((add_entry_document again p later).entry_document ≡ later.entry_document)
add_entry_document-lem true p later = (refl, refl)
add_entry_document-lem false p later = (refl, refl)

add_supporting_document-lem :
    (again : Bool) (p : ParsedDocument) (later : Sorted)
    → ((add_supporting_document again p later).supporting_documents
        ≡ p ∷ later.supporting_documents)
      × ((add_supporting_document again p later).entry_document ≡ later.entry_document)
add_supporting_document-lem true p later = (refl, refl)
add_supporting_document-lem false p later = (refl, refl)

pub sort_documents-supporting :
    (entry : Option ParsedDocument) (roles : List BundleDocumentRole)
    (documents : List ParsedDocument)
    → (sort_documents entry roles documents).supporting_documents ≡ rest_of documents
unfolding sort_documents
sort_documents-supporting entry roles [] = refl
sort_documents-supporting entry roles (p ∷ ps) = elim (Bool-cases (is_entry p)) [
  | inl here ↦
      rw (here, sort_documents, (add_entry_document-lem (is_some entry) p _).0)
        (sort_documents-supporting (some (get_or entry p)) roles ps)
  | inr other ↦
      rw
        (
          other,
          sort_documents,
          (add_supporting_document-lem (contains roles p.document.role) p _).0,
        )
        (ap (λ xs. p ∷ xs) (sort_documents-supporting entry (p.document.role ∷ roles) ps))
]

-- an entry document that was found is one, and has its values
abbrev pub IsFound : Option ParsedDocument → Type 0
IsFound none = Unit
IsFound (some p) = (is_entry p ≡ true) × HasValues p

IsFound-get_or :
    (entry : Option ParsedDocument) (p : ParsedDocument)
    → IsFound entry
    → IsReady p
    → is_entry p ≡ true
    → IsFound (some (get_or entry p))
IsFound-get_or none p found ready here = (here, ready here)
IsFound-get_or (some e) p found ready here = found

pub sort_documents-entry :
    (entry : Option ParsedDocument) (roles : List BundleDocumentRole)
    (documents : List ParsedDocument)
    → IsFound entry
    → All IsReady documents
    → IsFound (sort_documents entry roles documents).entry_document
unfolding sort_documents
sort_documents-entry entry roles [] found ready = found
sort_documents-entry entry roles (p ∷ ps) found ready = elim (Bool-cases (is_entry p)) [
  | inl here ↦
      rw (here, sort_documents, (add_entry_document-lem (is_some entry) p _).1)
        (sort_documents-entry (some (get_or entry p)) roles ps
          (IsFound-get_or entry p found ready.0 here) ready.1)
  | inr other ↦
      rw
        (
          other,
          sort_documents,
          (add_supporting_document-lem (contains roles p.document.role) p _).1,
        )
        (sort_documents-entry entry (p.document.role ∷ roles) ps found ready.1)
]

unfoldable pub AreNew : List BundleDocumentRole → List BundleDocumentRole → Type 0
AreNew roles found =
    Nodup found × ((role : BundleDocumentRole) → Mem role found → contains roles role ≡ false)

add_entry_document-issues :
    (again : Bool) (p : ParsedDocument) (later : Sorted)
    → (add_entry_document again p later).issues ≡ []
    → later.issues ≡ []
add_entry_document-issues true p later h = cc
add_entry_document-issues false p later h = h

add_supporting_document-issues :
    (again : Bool) (p : ParsedDocument) (later : Sorted)
    → (add_supporting_document again p later).issues ≡ []
    → (again ≡ false) × (later.issues ≡ [])
add_supporting_document-issues true p later h = cc
add_supporting_document-issues false p later h = (refl, h)

more-AreNew :
    (roles found : List BundleDocumentRole) (role : BundleDocumentRole)
    → contains roles role ≡ false
    → AreNew (role ∷ roles) found
    → AreNew roles (role ∷ found)
unfolding AreNew
more-AreNew roles found role new h = (
  Nodup-cons.1 (
    λ m. let unseen = h.1 role m in let here = (role_eq.same_iff role role).1 refl in ground arith,
    h.0,
  ),
  λ other m. elim (Bool-cases (contains roles other)) [
    | inl old ↦ absurd (
        Or.elim ⊥_prop (eq-or-mem_of_mem-cons m) (λ here. cc (new, here, old))
          (λ there. let unseen = h.1 other there in ground arith))
    | inr fresh ↦ fresh
  ],
)

pub sort_documents-roles :
    (entry : Option ParsedDocument) (roles : List BundleDocumentRole)
    (documents : List ParsedDocument)
    → (sort_documents entry roles documents).issues ≡ []
    → AreNew roles (roles_of (rest_of documents))
unfolding sort_documents AreNew
sort_documents-roles entry roles [] h = (Nodup-nil, λ role m. absurd (not-mem-nil m))
sort_documents-roles entry roles (p ∷ ps) h = elim (Bool-cases (is_entry p)) [
  | inl here ↦ rw here (
      sort_documents-roles (some (get_or entry p)) roles ps
        (add_entry_document-issues (is_some entry) p _ (rw (here, sort_documents) at h)))
  | inr other ↦
      let kept =
        add_supporting_document-issues (contains roles p.document.role) p _
          (rw (other, sort_documents) at h) in
      rw other (
        more-AreNew roles (roles_of (rest_of ps)) p.document.role kept.0
          (sort_documents-roles entry (p.document.role ∷ roles) ps kept.1))
]
