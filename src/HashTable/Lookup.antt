-- ===== src/HashTable/Lookup.antt =====
-- `hashtable_get` on a live table reads the map that the buckets represent.
use aer.Base.{◌<◌, ◌≡◌, sym, ◌∙◌, inl, inr, List, [], ◌∷◌, none, some, arith, length}
use aer.Base.Bytes.{Bytes}
use aer.Hash.{hash_key}
use aer.HashTable.Contents.{Represents}
use aer.HashTable.Live.{IsShaped, IsLive, found_at}
use aer.HashTable.Loops.{Place, place_of, positive, get_from-found_at}
use aer.HashTable.Placement.{Reaches-IsAbsent}
use aer.HashTable.Search.{home, home-lt}
use aer.HashTable.{HashTable, Bucket, bucket, get_from, get_slot, hashtable_get, lookup, payload_at}

module _ {ℓ} {V : Type ℓ} where
  get_slot-get_from :
      (t : HashTable V) (k : Bytes) (bs : List (Bucket V))
      → 0 < length bs
      → get_slot t k bs ≡ get_from t (hash_key k) k t.capacity 0
  unfolding get_slot
  get_slot-get_from t k [] h = elim h [ ]
  get_slot-get_from t k (b ∷ bs) h = ground arith

  pub hashtable_get-found_at :
      (t : HashTable V) (shape : IsShaped t) (k : Bytes) (s : Place t shape k)
      → hashtable_get t k ≡ found_at s.place (bucket t s.place)
  unfolding hashtable_get
  hashtable_get-found_at t shape k s =
      get_slot-get_from t k t.buckets (rw shape.width (positive t shape k))
      ∙ get_from-found_at t shape k s t.capacity 0 (omega arith) (omega arith)

  -- It returns the payload at the place of the key.
  pub lookup-payload_at :
      (t : HashTable V) (shape : IsShaped t) (k : Bytes) (s : Place t shape k)
      → lookup t k ≡ payload_at t s.place
  unfolding lookup found_at
  lookup-payload_at t shape k s =
      let run = hashtable_get-found_at t shape k s in
      elim s.content [
        | inl free ↦
            let here : hashtable_get t k ≡ none = run ∙ rw free in rw here (rw (free, payload_at))
        | inr (e, full, _) ↦ let here : hashtable_get t k ≡ some s.place = run ∙ rw full in rw here
      ]

  -- On a live table `hashtable_get` finds a value under a key exactly when some bucket holds the key
  -- with that value.
  pub lookup-Represents : (t : HashTable V) → IsLive t → Represents t.capacity (bucket t) (lookup t)
  lookup-Represents t live k v =
      let s = place_of t live.shape k in
      let run = lookup-payload_at t live.shape k s in
      elim s.content [
        | inl free ↦
            let value : lookup t k ≡ none = run ∙ rw (free, payload_at) in
            let absent =
              Reaches-IsAbsent t.capacity (home t.capacity)
                (home-lt t.capacity (positive t live.shape k)) (bucket t) k s.place live.placed
                s.reached free in
            ((λ h. cc), λ h. absurd (absent h.slot h.entry h.inside h.there h.its_key))
        | inr (e, full, mine) ↦
            let value : lookup t k ≡ some e.payload = run ∙ rw (full, payload_at) in
            (
              (λ h. record {
                slot = s.place;
                entry = e;
                inside = s.reached.inside;
                there = full;
                its_key = mine;
                its_value = cc;
              }),
              λ h.
                  let same =
                    live.unique s.place h.slot e h.entry s.reached.inside h.inside full h.there
                      (mine ∙ sym h.its_key) in
                  let there : bucket t s.place ≡ some h.entry = rw same h.there in
                  let value_of = h.its_value in cc,
            )
      ]
