-- ===== src/Conn/Manager/Goroutines/Flights.antt =====
-- The goroutines that hold a connection which is not yet in the map, and the list in which
-- `Schedule` keeps such connections.
use zabbix_agent2_plugin_pos.Prelude.{
  ℕ, suc, ◌≡◌, ◌≢◌, refl, sym, subst, ◌∙◌, ◌⊎◌, inl, inr, Option, none, some, List, [], ◌∷◌,
  Bool-cases, eqb, eqb→≡, eqb→≢,
}
use zabbix_agent2_plugin_pos.Conn.Manager.Schedule.{pick}

module _ {A : Type 0} (holds : ℕ → Option A) where
  -- The n-th goroutine of the first list holds the n-th entry of the second.
  abbrev pub Flying : List ℕ → List A → Type 0
  Flying [] [] = Unit {0}
  Flying [] (x ∷ xs) = ⊥
  Flying (i ∷ is) [] = ⊥
  Flying (i ∷ is) (x ∷ xs) = (holds i ≡ some x) × Flying is xs

abbrev pub Among : ℕ → List ℕ → Type 0
Among i [] = ⊥
Among i (j ∷ is) = (i ≡ j) ⊎ Among i is

abbrev Distinct : List ℕ → Type 0
Distinct [] = Unit {0}
Distinct (i ∷ is) = (¬ Among i is) × Distinct is

module _ {A : Type 0} where
  -- The entries are those that goroutines hold, each by one goroutine.
  pub record Crew (holds : ℕ → Option A) (xs : List A) : Type 0 where
    pub crew : List ℕ
    pub flying : Flying holds crew xs
    pub distinct : Distinct crew
    pub complete : (i : ℕ) (x : A) → holds i ≡ some x → Among i crew

  Flying-holds :
      (holds : ℕ → Option A) (i : ℕ) (is : List ℕ) (xs : List A)
      → Flying holds is xs
      → Among i is
      → (x : A) × (holds i ≡ some x)
  Flying-holds holds i [] xs fly a = absurd a
  Flying-holds holds i (j ∷ is) [] fly a = absurd fly
  Flying-holds holds i (j ∷ is) (x ∷ xs) (here, fly) (inl same) = (x, rw same here)
  Flying-holds holds i (j ∷ is) (x ∷ xs) (here, fly) (inr a) = Flying-holds holds i is xs fly a

  Flying-others :
      (holds holds' : ℕ → Option A) (i : ℕ) (is : List ℕ) (xs : List A)
      → ((j : ℕ) → j ≢ i → holds' j ≡ holds j)
      → ¬ Among i is
      → Flying holds is xs
      → Flying holds' is xs
  Flying-others holds holds' i [] [] same out fly = tt
  Flying-others holds holds' i [] (x ∷ xs) same out fly = fly
  Flying-others holds holds' i (j ∷ is) [] same out fly = fly
  Flying-others holds holds' i (j ∷ is) (x ∷ xs) same out (here, fly) = (
    same j (λ e. out (inl (sym e))) ∙ here,
    Flying-others holds holds' i is xs same (λ a. out (inr a)) fly,
  )

  -- What is left when goroutine `i` gives its entry away.
  record Left (holds : ℕ → Option A) (i : ℕ) (x : A) (is : List ℕ) (xs : List A) : Type 0 where
    place : ℕ
    rest : List A
    crew : List ℕ
    picked : pick place xs ≡ some (x, rest)
    flying : Flying holds crew rest
    distinct : Distinct crew
    gone : ¬ Among i crew
    fewer : (j : ℕ) → Among j crew → Among j is
    others : (j : ℕ) → j ≢ i → Among j is → Among j crew

  leave :
      (holds : ℕ → Option A) (i : ℕ) (x : A) (is : List ℕ) (xs : List A)
      → holds i ≡ some x
      → Flying holds is xs
      → Distinct is
      → Among i is
      → Left holds i x is xs
  leave holds i x [] xs held fly d a = absurd a
  leave holds i x (j ∷ is) [] held fly d a = absurd fly
  leave holds i x (j ∷ is) (y ∷ xs) held (here, fly) (out, d) (inl same) = record {
    place = 0;
    rest = xs;
    crew = is;
    picked = cc (same, held, here);
    flying = fly;
    distinct = d;
    gone = subst (λ k. ¬ Among k is) (sym same) out;
    fewer = λ k b. inr b;
    others = λ k differ b. elim b [ inl e ↦ absurd (differ (e ∙ sym same)) | inr c ↦ c ];
  }
  leave holds i x (j ∷ is) (y ∷ xs) held (here, fly) (out, d) (inr a) =
      let l = leave holds i x is xs held fly d a in
      record {
        place = suc l.place;
        rest = y ∷ l.rest;
        crew = j ∷ l.crew;
        picked = rw (l.picked, pick) refl;
        flying = (here, l.flying);
        distinct = (λ b. out (l.fewer j b), l.distinct);
        gone = λ b. elim b [ inl e ↦ out (subst (λ k. Among k is) e a) | inr c ↦ l.gone c ];
        fewer = λ k b. elim b [ inl e ↦ inl e | inr c ↦ inr (l.fewer k c) ];
        others = λ k differ b. elim b [ inl e ↦ inl e | inr c ↦ inr (l.others k differ c) ];
      }

  pub Crew-nil : (holds : ℕ → Option A) → ((i : ℕ) → holds i ≡ none) → Crew holds []
  Crew-nil holds empty = record {
    crew = [];
    flying = tt;
    distinct = tt;
    complete = λ i x h. cc (empty i, h);
  }

  module _ {holds holds' : ℕ → Option A} {xs : List A} (c : Crew holds xs) where
    pub Crew-same : ((j : ℕ) → holds' j ≡ holds j) → Crew holds' xs
    Crew-same same = let pointwise : holds' ≡ holds = λ i j. same j i in rw pointwise c

    module _ (i : ℕ) (x : A) (same : (j : ℕ) → j ≢ i → holds' j ≡ holds j) where
      pub Crew-board : holds i ≡ none → holds' i ≡ some x → Crew holds' (x ∷ xs)
      Crew-board before now =
          let out : ¬ Among i c.crew =
            λ a. let (y, held) = Flying-holds holds i c.crew xs c.flying a in cc (before, held) in
          record {
            crew = i ∷ c.crew;
            flying = (now, Flying-others holds holds' i c.crew xs same out c.flying);
            distinct = (out, c.distinct);
            complete = λ j y held. elim (Bool-cases (eqb j i)) [
              | inl e ↦ inl (eqb→≡ j i e)
              | inr e ↦ inr (c.complete j y (sym (same j (eqb→≢ j i e)) ∙ held))
            ];
          }

      -- The entry that goroutine `i` gives away is the n-th, and the others stay.
      pub Crew-leave :
          holds i ≡ some x
          → holds' i ≡ none
          → (n : ℕ) × (rest : List A) × (pick n xs ≡ some (x, rest)) × Crew holds' rest
      Crew-leave held gone =
          let l = leave holds i x c.crew xs held c.flying c.distinct (c.complete i x held) in
          (
            l.place,
            l.rest,
            l.picked,
            record {
              crew = l.crew;
              flying = Flying-others holds holds' i l.crew l.rest same l.gone l.flying;
              distinct = l.distinct;
              complete = λ j y h. elim (Bool-cases (eqb j i)) [
                | inl e ↦ cc (gone, h, eqb→≡ j i e)
                | inr e ↦
                    let differ = eqb→≢ j i e in
                    l.others j differ (c.complete j y (sym (same j differ) ∙ h))
              ];
            },
          )
