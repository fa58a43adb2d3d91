-- ===== src/Tests/AccumulatorRuns.antt =====
-- The theorems on nymora-core, nymora-crypto and nymora-accumulator at concrete inputs.
use nymora.Prelude.{
  ℕ, ◌≡◌, ◌⊎◌, refl, true, false, ◌||◌, none, some, List, [], ◌∷◌, ltb, take, contains, arith, ◌==◌,
}
use nymora.Prelude.Bytes.{Bytes, le_bytes, le_value}
use nymora.Crypto.Field.{Field}
use nymora.Core.Domain.{Domain, tag}
use nymora.Core.Domain.PrefixFree.{is_prefix, tag_prefix_free}
use nymora.Crypto.Hash.Framing.{transcript-injective}
use nymora.Accumulator.Witness
use nymora.Accumulator.Witness.{Witness, fold, fold_from, fold_step, from_prefix, verifies}
use nymora.Accumulator.Witness.Binding.{Collides, fold_binding}
use nymora.Accumulator.Tree.{Tree, occupied_height, witness, root}
use nymora.Accumulator.Tree.Inclusion.{witness-verifies}
use nymora.Accumulator.Tree.Prefix.{from_prefix-witness}
use nymora.Accumulator.Exclusion
use nymora.Accumulator.Exclusion.{
  ExclusionSet, AbsenceWitness, truncate_key, ct_less, verifies_absent, absence_witness, insert,
}
use nymora.Accumulator.Exclusion.Order.{ct_less-lt, le_bytes-IsDigest}
use nymora.Accumulator.Exclusion.Gaps.{IsOrdered, insert-IsOrdered}
use nymora.Accumulator.Exclusion.Absence.Complete.{absence_complete}
use nymora.Accumulator.Exclusion.Absence.Sound.{Forged, absence_sound}
use nymora.Tests.Toy.{framed, framed_decides, framed-Decodes, framed-IsEncoding}

abbrev three : Tree
three = record { leaves = (5 ∷ []) ∷ (6 ∷ []) ∷ (7 ∷ []) ∷ [] }

tag_prefix_free_example : Domain.transparency_entry ≡ Domain.transparency_entry
unfolding is_prefix tag
tag_prefix_free_example = tag_prefix_free Domain.transparency_entry Domain.transparency_entry refl

abbrev two_values : List Bytes
two_values = (1 ∷ []) ∷ (2 ∷ 3 ∷ []) ∷ []

transcript-injective_example : (Domain.bulletin ≡ Domain.bulletin) × (two_values ≡ two_values)
transcript-injective_example =
    transcript-injective Domain.bulletin Domain.bulletin two_values two_values
      (omega arith, (omega arith, tt)) (omega arith, (omega arith, tt)) refl

abbrev path : Witness
path = record { index = 2; siblings = (8 ∷ []) ∷ (9 ∷ []) ∷ [] }

abbrev leaf : Bytes
leaf = 7 ∷ []

abbrev headed_hash : List Bytes → Bytes
headed_hash [] = []
headed_hash (x ∷ _) = x

-- A field whose hash reads only the first value, and two leaves that collide in it.
abbrev headed : Field
headed = record framed { hash = headed_hash }

abbrev left_path : Witness
left_path = record { index = 3; siblings = (8 ∷ []) ∷ (9 ∷ []) ∷ [] }

fold_binding_example :
    (leaf ≡ 6 ∷ [])
    ⊎ Collides headed leaf (6 ∷ []) 3 ((8 ∷ []) ∷ (9 ∷ []) ∷ []) ((8 ∷ []) ∷ (9 ∷ []) ∷ [])
unfolding fold fold_from fold_step
fold_binding_example =
    fold_binding headed (λ x. refl) framed_decides leaf (6 ∷ []) left_path left_path refl refl refl

witness-verifies_example :
    (w : Witness) × (witness framed 2 three 2 ≡ some w)
    × (verifies framed (7 ∷ []) w (root framed 2 three) ≡ true)
witness-verifies_example =
    witness-verifies framed framed-Decodes 2 three 2 (7 ∷ []) (omega arith) refl refl

-- The witness of the first leaf in a tree of depth 3, whose top sibling is empty.
abbrev first : Witness
unfolding witness Witness.new
first = elim (witness framed 3 three 0) as (λ _. Witness) [ none ↦ path | some w ↦ w ]

from_prefix-witness_example :
    from_prefix framed 3 0 (take (occupied_height three) first.siblings) ≡ some first
unfolding witness Witness.new
from_prefix-witness_example = from_prefix-witness framed 3 three 0 first (omega arith) refl

abbrev key : Bytes
key = le_bytes 32 300

abbrev other : Bytes
other = le_bytes 32 77

abbrev one_key : ExclusionSet
one_key = record { ordered = 300 ∷ [] }

one_key-IsOrdered : IsOrdered one_key
one_key-IsOrdered = record { ascending = tt; bounded = (omega arith, tt) }

ct_less-lt_example : ct_less (44 ∷ 1 ∷ []) (77 ∷ 0 ∷ []) ≡ ltb 300 77
unfolding le_value
ct_less-lt_example =
    ct_less-lt (44 ∷ 1 ∷ []) (77 ∷ 0 ∷ []) refl (omega arith, (omega arith, tt))
      (omega arith, (omega arith, tt))

insert-IsOrdered_example :
    IsOrdered (insert other one_key)
    × ((t : ℕ)
        → contains t (insert other one_key).ordered
          ≡ (t == le_value (truncate_key other) || contains t one_key.ordered))
insert-IsOrdered_example = insert-IsOrdered other one_key (le_bytes-IsDigest 77) one_key-IsOrdered

absence_complete_example :
    (w : AbsenceWitness) × (absence_witness framed 2 one_key other ≡ some w)
    × (verifies_absent framed other w (Exclusion.root framed 2 one_key) ≡ true)
unfolding le_bytes le_value truncate_key Exclusion.update_at
absence_complete_example =
    absence_complete framed framed-Decodes 2 one_key other (omega arith) one_key-IsOrdered
      (omega arith) (le_bytes-IsDigest 77) refl (omega arith) (omega arith)

abbrev false_gap : AbsenceWitness
false_gap = record {
  low = le_bytes 32 0;
  high = le_bytes 32 301;
  path = record { index = 0; siblings = (1 ∷ []) ∷ (2 ∷ []) ∷ [] };
}

absence_sound_example :
    (verifies_absent framed key false_gap (Exclusion.root framed 2 one_key) ≡ false)
    ⊎ Forged framed 2 one_key false_gap
unfolding le_bytes le_value truncate_key Exclusion.update_at
absence_sound_example =
    absence_sound framed framed-IsEncoding 2 one_key key false_gap (omega arith) one_key-IsOrdered
      (omega arith) (le_bytes-IsDigest 300) (le_bytes-IsDigest 0) (le_bytes-IsDigest 301)
      (omega arith) refl refl
