-- ===== src/Garbage/Tests.antt =====
-- A collection of the sample storage: it deletes the blob that nothing names, and nothing else.
use simple_registry.Base.{[], ◌∷◌, nat_eq, list_eq, codes, list_beq, any, contains, refl}
use simple_registry.Base.{◌==◌, nat_eq, list_eq, Text, In, inl, inr, subst, Bool-cases, ◌<◌, arith}
use simple_registry.Garbage.Mark.Fuel.{NotOut, Bounded, unseen, mark_manifest-NotOut}
use simple_registry.Garbage.Mark.References.{children}
use simple_registry.Sample.{sample, sample_decoders}
use simple_registry.Garbage.Mark.{Marks, mark_manifest, raw_kind, kind_of}
use simple_registry.Garbage.Sweep.{Report}

abbrev sample_marks : Marks
sample_marks = record { manifests = codes "m" ∷ []; blobs = codes "c" ∷ codes "l" ∷ [] }

abbrev sample_report : Report
sample_report = record {
  blobs_to_delete = codes "x" ∷ [];
  manifests_to_delete = [];
  marks = sample_marks;
}

m_refers_nothing : (y : Text) → ¬ In y (children sample_decoders sample [] (codes "r") (codes "m"))
unfolding raw_kind kind_of list_beq
m_refers_nothing y i = i

sample-Bounded : Bounded sample_decoders sample [] (codes "r") (codes "m" ∷ [])
sample-Bounded = record {
  get_same = λ r. refl;
  refs_same = λ r. refl;
  get_fine = sample_fine;
  refs_fine = λ r z. cc;
  complete = λ d i y j. elim i [
    | inl e ↦ absurd (
        m_refers_nothing y
          (subst (λ z. In y (children sample_decoders sample [] (codes "r") z)) e j))
    | inr z ↦ absurd z
  ];
}
  where
    sample_fine : (r : Text) → NotOut (sample.manifest_get (codes "r") r [])
    sample_fine r = elim (Bool-cases (r == codes "t")) [
      | inl t ↦ rw t (λ z. cc)
      | inr f ↦ elim (Bool-cases (r == codes "m")) [
        | inl t ↦ rw (f, t) (λ z. cc)
        | inr g ↦ rw (f, g) (λ z. cc)
      ]
    ]

one_left : unseen (codes "m" ∷ []) [] < 2
unfolding unseen contains any
one_left = omega arith

mark_manifest-NotOut_example : NotOut (
    mark_manifest sample_decoders sample 2
      (codes "r")
      (codes "m")
      (record { manifests = []; blobs = [] })
      [])
mark_manifest-NotOut_example =
    mark_manifest-NotOut sample_decoders sample [] (codes "r") (codes "m" ∷ []) 2 (codes "m")
      (record { manifests = []; blobs = [] }) sample-Bounded (inl refl) one_left
