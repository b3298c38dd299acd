-- ===== src/HashTable/Clear.antt =====
-- `hashtable_clear` and `hashtable_free`.
use mathlib.Core.Path.{subst}
use aer.Base.{
  ℕ, suc, zero, ◌<◌, ◌≡◌, refl, sym, ap, ◌∙◌, inl, inr, List, [], ◌∷◌, none, arith, length, get_or,
}
use aer.Base.Bytes.{Bytes}
use aer.HashTable.Contents.{Represents-same}
use aer.HashTable.Entries.{
  entries, releases_of, AreEntriesOf, HaveKeysOnce, IsUnique-HaveKeysOnce, length-entries,
  release_all-releases_of, Represents-AreEntriesOf,
}
use aer.HashTable.Live.{IsLive, occupied}
use aer.HashTable.Lookup.{lookup-Represents}
use aer.HashTable.Store.{IsValid, IsUnused, lookup-IsUnused}
use aer.HashTable.{
  HashTable, Bucket, Freed, bucket, lookup, clear_all, release_all, clear_buckets, hashtable_clear,
  hashtable_free,
}

module _ {ℓ} {V : Type ℓ} where
  length-clear_all : (bs : List (Bucket V)) → length (clear_all bs) ≡ length bs
  unfolding clear_all
  length-clear_all [] = refl
  length-clear_all (b ∷ bs) = ap suc (length-clear_all bs)

  occupied-clear_all : (bs : List (Bucket V)) → occupied (clear_all bs) ≡ 0
  unfolding clear_all occupied
  occupied-clear_all [] = refl
  occupied-clear_all (b ∷ bs) = occupied-clear_all bs

  get_or-clear_all : (bs : List (Bucket V)) (i : ℕ) → get_or (clear_all bs) i none ≡ none
  unfolding clear_all
  get_or-clear_all [] i = refl
  get_or-clear_all (b ∷ bs) zero = refl
  get_or-clear_all (b ∷ bs) (suc i) = get_or-clear_all bs i

  abbrev cleared : HashTable V → HashTable V
  cleared t = record t { buckets = clear_all t.buckets; count = 0 }

  cleared-IsLive : (t : HashTable V) → IsLive t → IsLive (cleared t)
  cleared-IsLive t live = record {
    shape = record {
      exponent = live.shape.exponent;
      exponent_le = live.shape.exponent_le;
      power = live.shape.power;
      roomy = live.shape.roomy;
      width = length-clear_all t.buckets ∙ live.shape.width;
      counted = sym (occupied-clear_all t.buckets);
      spare = omega (arith, live.shape.roomy);
      lengths = λ p e at. let empty = get_or-clear_all t.buckets p in cc;
    };
    sparse = omega arith;
    placed = λ p d e hp at. let empty = get_or-clear_all t.buckets p in cc;
    unique = λ p q e f hp hq at. let empty = get_or-clear_all t.buckets p in cc;
  }

  lookup-cleared : (t : HashTable V) → IsLive t → (k : Bytes) → lookup (cleared t) k ≡ none
  lookup-cleared t live =
      Represents-same t.capacity (bucket (cleared t)) (lookup (cleared t)) (λ _. none)
        (lookup-Represents (cleared t) (cleared-IsLive t live))
        (λ k v. (
          (λ h. cc),
          λ h. let empty = get_or-clear_all t.buckets h.slot in let there = h.there in cc,
        ))

  clear_buckets-cleared :
      (t : HashTable V) (bs : List (Bucket V))
      → 0 < length bs
      → clear_buckets t bs ≡ (record t { buckets = clear_all bs; count = 0 }, release_all t bs)
  unfolding clear_buckets
  clear_buckets-cleared t [] h = elim h [ ]
  clear_buckets-cleared t (b ∷ bs) h = refl

  -- What `hashtable_clear` owes.
  pub record Cleared (t : HashTable V) (r : HashTable V × List (Freed V)) : Type ℓ where
    pub valid : IsValid r.0
    pub empty : (k : Bytes) → lookup r.0 k ≡ none
    pub no_count : r.0.count ≡ 0
    pub same_capacity : r.0.capacity ≡ t.capacity
    pub held : List (Bytes × V)
    pub entries_of : AreEntriesOf (lookup t) held
    pub once : HaveKeysOnce held
    pub counted : length held ≡ t.count
    pub released : r.1 ≡ releases_of t.is_inline held

  -- `hashtable_clear` of a valid table leaves a valid table that holds nothing, with the buckets it had. It
  -- releases, for each key with a value in the table, this key and, where values are boxed, its
  -- value, all of them once and nothing else.
  pub hashtable_clear-Cleared : (t : HashTable V) → IsValid t → Cleared t (hashtable_clear t)
  unfolding hashtable_clear releases_of
  hashtable_clear-Cleared t (inl unused) =
      let same : hashtable_clear t ≡ (t, []) = ap (clear_buckets t) unused.null in
      subst (Cleared t) (sym same) (record {
        valid = inl unused;
        empty = lookup-IsUnused t unused;
        no_count = unused.no_count;
        same_capacity = refl;
        held = [];
        entries_of = λ k v. (λ h. let empty = lookup-IsUnused t unused k in cc, λ (i, at). cc);
        once = λ i j k v w h g. cc;
        counted = sym unused.no_count;
        released = refl;
      })
  hashtable_clear-Cleared t (inr live) =
      let same =
        clear_buckets-cleared t t.buckets (omega (arith, live.shape.width, live.shape.roomy)) in
      subst (Cleared t) (sym same) (record {
        valid = inr (cleared-IsLive t live);
        empty = lookup-cleared t live;
        no_count = refl;
        same_capacity = refl;
        held = entries t.buckets;
        entries_of =
            Represents-AreEntriesOf t (lookup t) live.shape.width (lookup-Represents t live);
        once = IsUnique-HaveKeysOnce t live.shape.width live.unique;
        counted = length-entries t.buckets ∙ sym live.shape.counted;
        released = release_all-releases_of t t.buckets;
      })

  -- After `hashtable_free` the table is as before its first put, and holds nothing.
  hashtable_free-IsUnused : (t : HashTable V) → IsUnused (hashtable_free t).0
  unfolding hashtable_free
  hashtable_free-IsUnused t = record { null = refl; no_count = refl; no_capacity = refl }
