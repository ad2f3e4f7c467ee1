-- ===== src/Store/Ops/Views.antt =====
-- How the loops over annotation pairs change the bitmaps.
use arkiv_storage_service.Base.{
  ℕ, ◌≡◌, refl, sym, ap, subst, ◌∙◌, Bool, true, not, ◌&&◌, ◌||◌, List, [], ◌∷◌, ◌==◌,
  if◌then◌else◌, Bool-cases, inl, inr, ok, >>=-eq-ok, arith,
}
use arkiv_storage_service.Platform.{Platform}
use arkiv_storage_service.Store.Entity.{AnnotPair, same_pair, has_pair}
use arkiv_storage_service.Store.Entity.Laws.{same_pair_iff, same_pair_sym, has_pair_same}
use arkiv_storage_service.Store.Cache.{Codec, CacheStore, cached_bitmap, bitmap_add, bitmap_remove}
use arkiv_storage_service.Store.Cache.Views.{
  Frame, Frame-refl, Frame-trans, Mutated, mutate_bitmap-Mutated,
}
use arkiv_storage_service.Store.Ops.{add_all, remove_all, not_in}

-- The pairs of one list that are not in another.
pub has_pair-not_in :
    (ps qs : List AnnotPair) (q : AnnotPair)
    → has_pair (not_in ps qs) q ≡ (has_pair ps q && not (has_pair qs q))
unfolding not_in has_pair
has_pair-not_in [] qs q = refl
has_pair-not_in (p ∷ ps) qs q = elim (Bool-cases (has_pair qs p)) [
  | inl e ↦ rw e (
      ground
        (arith, has_pair-not_in ps qs q, λ (s : same_pair q p ≡ true). has_pair_same qs q p s ∙ e))
  | inr e ↦ rw e (
      ground
        (arith, has_pair-not_in ps qs q, λ (s : same_pair q p ≡ true). has_pair_same qs q p s ∙ e))
]

module _ (P : Platform) (C : Codec) where
  -- Only bitmaps change, and `g pair j` turns what a bitmap said of entity `j` into what it says.
  pub record Changed (c c' : CacheStore P C) (g : AnnotPair → ℕ → Bool → Bool) : Type 0 where
    pub frame : Frame P C c c'
    pub bits :
        (q : AnnotPair) (bm' : P.roaring.Bitmap)
        → cached_bitmap P C c' q ≡ ok bm'
        → (bm : P.roaring.Bitmap) × (cached_bitmap P C c q ≡ ok bm)
          × ((j : ℕ) → P.roaring.contains bm' j ≡ g q j (P.roaring.contains bm j))

  Changed-refl : (c : CacheStore P C) → Changed c c (λ q j x. x)
  Changed-refl c = record { frame = Frame-refl P C c; bits = λ q bm h. (bm, h, λ j. refl) }

  pub Changed-trans :
      (a b c : CacheStore P C) (f g h : AnnotPair → ℕ → Bool → Bool)
      → ((q : AnnotPair) (j : ℕ) (x : Bool) → g q j (f q j x) ≡ h q j x)
      → Changed a b f
      → Changed b c g
      → Changed a c h
  Changed-trans a b c f g h e m n = record {
    frame = Frame-trans P C a b c m.frame n.frame;
    bits = λ q bm'' k.
        let (bm', k', n') = n.bits q bm'' k in
        let (bm, k'', m') = m.bits q bm' k' in
        (bm, k'', λ j. n' j ∙ (ap (g q j) (m' j) ∙ e q j (P.roaring.contains bm j)));
  }

  pub Changed-by :
      (a b : CacheStore P C) (f g : AnnotPair → ℕ → Bool → Bool)
      → ((q : AnnotPair) (j : ℕ) (x : Bool) → f q j x ≡ g q j x)
      → Changed a b f
      → Changed a b g
  Changed-by a b f g e m = record {
    frame = m.frame;
    bits = λ q bm' k.
        let (bm, k', m') = m.bits q bm' k in (bm, k', λ j. m' j ∙ e q j (P.roaring.contains bm j));
  }

  -- One call of `mutateBitmap`, for a function on bitmaps that acts on bits by `t`.
  module _ (f : P.roaring.Bitmap → P.roaring.Bitmap) (t : ℕ → Bool → Bool)
      (acts : (b : P.roaring.Bitmap) (j : ℕ)
        → P.roaring.contains (f b) j ≡ t j (P.roaring.contains b j)) where
    Mutated-Changed :
        (c c' : CacheStore P C) (p : AnnotPair)
        → Mutated P C c c' p f
        → Changed c c' (λ q j x. if same_pair p q then t j x else x)
    Mutated-Changed c c' p m = record {
      frame = m.frame;
      bits = λ q bm' k. elim (Bool-cases (same_pair p q)) [
        | inl e ↦
            let new : ok (f m.before) ≡ ok bm' = sym (m.after q ∙ rw e) ∙ k in
            let old : cached_bitmap P C c q ≡ ok m.before =
              ap (cached_bitmap P C c) (sym ((same_pair_iff p q).0 e)) ∙ m.loaded in
            let is : f m.before ≡ bm' = cc in
            (m.before, old, λ j. rw e (ap (λ x. P.roaring.contains x j) (sym is) ∙ acts m.before j))
        | inr e ↦ (bm', sym (m.after q ∙ rw e) ∙ k, λ j. rw e)
      ];
    }

  abbrev pub adding : List AnnotPair → ℕ → AnnotPair → ℕ → Bool → Bool
  adding ps id q j x = has_pair ps q && id == j || x

  abbrev pub removing : List AnnotPair → ℕ → AnnotPair → ℕ → Bool → Bool
  removing ps id q j x = not (has_pair ps q && id == j) && x

  pub bitmap_add-Changed :
      (c c' : CacheStore P C) (p : AnnotPair) (id : ℕ)
      → bitmap_add P C c p id ≡ ok c'
      → Changed c c' (adding (p ∷ []) id)
  unfolding bitmap_add has_pair
  bitmap_add-Changed c c' p id h =
      Changed-by c c' _ _ (λ q j x. ground (arith, same_pair_sym p q))
        (Mutated-Changed (λ bm. P.roaring.add bm id) (λ j x. id == j || x)
          (λ b j. P.roaring.contains-add b id j) c c' p
          (mutate_bitmap-Mutated P C c p (λ bm. P.roaring.add bm id) h))

  pub bitmap_remove-Changed :
      (c c' : CacheStore P C) (p : AnnotPair) (id : ℕ)
      → bitmap_remove P C c p id ≡ ok c'
      → Changed c c' (removing (p ∷ []) id)
  unfolding bitmap_remove has_pair
  bitmap_remove-Changed c c' p id h =
      Changed-by c c' _ _ (λ q j x. ground (arith, same_pair_sym p q))
        (Mutated-Changed (λ bm. P.roaring.remove bm id) (λ j x. not (id == j) && x)
          (λ b j. P.roaring.contains-remove b id j) c c' p
          (mutate_bitmap-Mutated P C c p (λ bm. P.roaring.remove bm id) h))

  adding-cons :
      (p : AnnotPair) (ps : List AnnotPair) (id : ℕ) (q : AnnotPair) (j : ℕ) (x : Bool)
      → adding ps id q j (adding (p ∷ []) id q j x) ≡ adding (p ∷ ps) id q j x
  unfolding has_pair
  adding-cons p ps id q j x = ground arith

  removing-cons :
      (p : AnnotPair) (ps : List AnnotPair) (id : ℕ) (q : AnnotPair) (j : ℕ) (x : Bool)
      → removing ps id q j (removing (p ∷ []) id q j x) ≡ removing (p ∷ ps) id q j x
  unfolding has_pair
  removing-cons p ps id q j x = ground arith

  -- Adding an entity to the bitmaps of a list of pairs sets its bit in these, and nothing else.
  pub add_all-Changed :
      (c c' : CacheStore P C) (ps : List AnnotPair) (id : ℕ)
      → add_all P C c ps id ≡ ok c'
      → Changed c c' (adding ps id)
  unfolding add_all has_pair
  add_all-Changed c c' [] id h = subst (λ x. Changed c x (adding [] id)) (cc) (Changed-refl c)
  add_all-Changed c c' (p ∷ ps) id h =
      let (c₁, e, k) = >>=-eq-ok (bitmap_add P C c p id) _ h in
      Changed-trans c c₁ c' (adding (p ∷ []) id) (adding ps id) (adding (p ∷ ps) id)
        (adding-cons p ps id) (bitmap_add-Changed c c₁ p id e) (add_all-Changed c₁ c' ps id k)

  pub remove_all-Changed :
      (c c' : CacheStore P C) (ps : List AnnotPair) (id : ℕ)
      → remove_all P C c ps id ≡ ok c'
      → Changed c c' (removing ps id)
  unfolding remove_all has_pair
  remove_all-Changed c c' [] id h = subst (λ x. Changed c x (removing [] id)) (cc) (Changed-refl c)
  remove_all-Changed c c' (p ∷ ps) id h =
      let (c₁, e, k) = >>=-eq-ok (bitmap_remove P C c p id) _ h in
      Changed-trans c c₁ c' (removing (p ∷ []) id) (removing ps id) (removing (p ∷ ps) id)
        (removing-cons p ps id) (bitmap_remove-Changed c c₁ p id e)
        (remove_all-Changed c₁ c' ps id k)
