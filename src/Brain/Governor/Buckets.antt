-- ===== src/Brain/Governor/Buckets.antt =====
-- The three buckets of the governor are apart.
use rato.Prelude.{
  ℕ, ◌≤◌, ◌≡◌, refl, ◌∙◌, ◌≢◌, String, arith, ◌⊎◌, inl, inr, leb, length, filter, List, Bool-cases,
}
use rato.Brain.Governor.{
  Float, Mode, mentor_mode, chaos_mode, quiet_mode, BucketState, Governor, in_last_hour, mode_of,
  bucket, set_bucket, draw, admit, refill, try_consume,
}

module _ (A : Float) where
  bucket-set_bucket_ne :
      (n m : Mode) (b : BucketState A) (g : Governor A)
      → n ≢ m
      → bucket A n (set_bucket A m b g) ≡ bucket A n g
  unfolding bucket set_bucket
  bucket-set_bucket_ne mentor_mode mentor_mode b g h = absurd (h refl)
  bucket-set_bucket_ne mentor_mode chaos_mode b g h = refl
  bucket-set_bucket_ne mentor_mode quiet_mode b g h = refl
  bucket-set_bucket_ne chaos_mode mentor_mode b g h = refl
  bucket-set_bucket_ne chaos_mode chaos_mode b g h = absurd (h refl)
  bucket-set_bucket_ne chaos_mode quiet_mode b g h = refl
  bucket-set_bucket_ne quiet_mode mentor_mode b g h = refl
  bucket-set_bucket_ne quiet_mode chaos_mode b g h = refl
  bucket-set_bucket_ne quiet_mode quiet_mode b g h = absurd (h refl)

  bucket-window :
      (n : Mode) (g : Governor A) (w : List ℕ)
      → bucket A n (record g { global_window = w }) ≡ bucket A n g
  unfolding bucket
  bucket-window mentor_mode g w = refl
  bucket-window chaos_mode g w = refl
  bucket-window quiet_mode g w = refl

  draw-others :
      (n m : Mode) (now : ℕ) (g : Governor A) → n ≢ m → bucket A n (draw A m now g).0 ≡ bucket A n g
  unfolding draw
  draw-others n m now g h = elim (Bool-cases (try_consume A (refill A (bucket A m g) now)).1) [
    | inl granted ↦ rw granted (bucket-window n _ _ ∙ bucket-set_bucket_ne n m _ g h)
    | inr refused ↦ rw refused (bucket-set_bucket_ne n m _ g h)
  ]

  -- A call draws on no bucket but that of its mode (the mentor's, for a mode that it does not know),
  -- and on none at all when eight calls of the last hour are in the window.
  pub bucket-admit :
      (n : Mode) (mode : String) (now : ℕ) (g : Governor A)
      → (n ≢ mode_of mode) ⊎ (8 ≤ length (filter (in_last_hour now) g.global_window))
      → bucket A n (admit A mode now g).0 ≡ bucket A n g
  unfolding admit
  bucket-admit n mode now g h =
      elim (Bool-cases (leb 8 (length (filter (in_last_hour now) g.global_window)))) [
        | inl full ↦ rw full (bucket-window n g _)
        | inr room ↦ rw room (elim h [
          | inl other ↦ draw-others n (mode_of mode) now _ other ∙ bucket-window n g _
          | inr full ↦ absurd (ground arith)
        ])
      ]
