-- ===== src/Bundle/Parser/Sorting/Collisions.antt =====
-- The names that sections of one document get from `unique_slug`.
use Prim.Native.String.{◌++◌ as text_append, count}
use Prim.Native.Char.{Char}
use text.Mathlib.TextLemmas.{length-append, length-cons}
use a2ex.Base.{
  String, [], ◌∷◌, false, ◌==◌, ◌≡◌, ◌≢◌, refl, sym, ap, inl, inr, Bool-cases, arith, map, eq_iff,
  eq_refl,
}
use a2ex.Base.Text.{join, decimal}
use a2ex.Bundle.Model.{Url, BundleDocumentRole}
use a2ex.Bundle.Parser.Headings.{SectionCandidate}
use a2ex.Bundle.Parser.Sorting.{
  times, unique_slug, section_kind_for_role, add_section, classify_from, classify_sections,
}

-- the second name of a slug
abbrev pub second : String → String
second slug = join "-" (slug ∷ "2" ∷ [])

append-ne_self : (s t : String) (c : Char) → text_append s (String.◌∷◌ c t) ≢ s
append-ne_self s t c = λ e.
    let same = length-append s (String.◌∷◌ c t) in
    let more = length-cons c t in let less = ap count e in omega arith

second-ne : (slug : String) → (slug == second slug) ≡ false
unfolding join
second-ne slug = elim (Bool-cases (slug == second slug)) [
  | inl same ↦ absurd (append-ne_self slug "2" "-" (sym ((eq_iff slug (second slug)).0 same)))
  | inr other ↦ other
]

-- Two sections under one heading and a third whose own slug is that heading's with `-2` at the end:
-- the id of the first ends in its slug, but the second and the third get one id.
pub classify_sections-collision :
    (document_id slug : String) (source_url : Url) (a b c : SectionCandidate)
    → a.slug ≡ slug
    → b.slug ≡ slug
    → c.slug ≡ second slug
    → map
        (λ s. s.section_id)
        (classify_sections BundleDocumentRole.operator_notes document_id source_url
          (a ∷ b ∷ c ∷ [])).1
      ≡ join "#" (document_id ∷ slug ∷ [])
        ∷ join "#" (document_id ∷ second slug ∷ [])
        ∷ join "#" (document_id ∷ second slug ∷ [])
        ∷ []
unfolding classify_sections classify_from section_kind_for_role add_section unique_slug times join
    decimal
classify_sections-collision document_id slug source_url a b c ha hb hc =
    rw (ha, hb, hc, second-ne slug, eq_refl slug) refl
