-- ===== src/NavActive/Laws.antt =====
-- Which links are marked, and which groups are open, after the loop.
use ucollection.Base.{
  ℕ, zero, suc, ◌≡◌, refl, sym, ap, ◌∙◌, ◌⊎◌, inl, inr, ◌↔◌, Text, codes, List, [], ◌∷◌, ◌++◌,
  append_assoc, Bool, true, false, Option, none, some, length, take, drop, take-append, text_beq,
  text_beq_iff, nat_beq, nat_beq_iff, All, starts_with, Bool-cases, arith,
}
use ucollection.NavActive.{Link, Sidebar, is_here, open_details, highlight}

-- The page is the one that the link leads to, or lies below it.
abbrev pub Under : Text → Text → Type 0
Under here path = (here ≡ path) ⊎ ((rest : Text) × (here ≡ path ++ b'/' ∷ rest))

take-drop {ℓ} : {A : Type ℓ} (n : ℕ) (xs : List A) → take n xs ++ drop n xs ≡ xs
take-drop zero xs = refl
take-drop (suc n) [] = refl
take-drop (suc n) (x ∷ xs) = ap (λ l. x ∷ l) (take-drop n xs)

starts_with-append : (p rest : Text) → starts_with (p ++ rest) p ≡ true
unfolding starts_with
starts_with-append p rest = (text_beq_iff _ p).1 (take-append p rest)

append_of_starts_with : (s p : Text) → starts_with s p ≡ true → s ≡ p ++ drop (length p) s
unfolding starts_with
append_of_starts_with s p h =
    sym (take-drop (length p) s) ∙ ap (λ l. l ++ drop (length p) s) ((text_beq_iff _ p).0 h)

pub is_here-Under : (here path : Text) → (is_here here path ≡ true) ↔ Under here path
unfolding is_here
is_here-Under here path = (there, back)
  where
    there : is_here here path ≡ true → Under here path
    there h = elim (Bool-cases (text_beq here path)) [
      | inl same ↦ inl ((text_beq_iff here path).0 same)
      | inr other ↦
          let p = path ++ codes "/" in
          let s : starts_with here p ≡ true = rw other at h in
          inr (
            drop (length p) here,
            append_of_starts_with here p s ∙ append_assoc path (codes "/") (drop (length p) here),
          )
    ]

    back : Under here path → is_here here path ≡ true
    back (inl same) = rw ((text_beq_iff here path).1 same) refl
    back (inr (rest, e)) =
        let p = path ++ codes "/" in
        let s : here ≡ p ++ rest = e ∙ sym (append_assoc path (codes "/") rest) in
        let h : starts_with here p ≡ true =
          ap (λ t. starts_with t p) s ∙ starts_with-append p rest in
        ground (arith, h)

open_details_iff :
    (o : Option ℕ) (opened : ℕ → Bool) (d : ℕ)
    → (open_details o opened d ≡ true) ↔ ((o ≡ some d) ⊎ (opened d ≡ true))
open_details_iff none opened d = (λ h. inr h, λ h. elim h [ inl e ↦ absurd (cc e) | inr e ↦ e ])
open_details_iff (some e) opened d = elim (Bool-cases (nat_beq e d)) [
  | inl same ↦ rw same ((λ h. inl (ap some ((nat_beq_iff e d).0 same))), (λ h. refl))
  | inr other ↦
      rw other (
        (λ h. inr h),
        (λ h. elim h [ inl p ↦ absurd (ground (arith, nat_beq_iff e d)) | inr q ↦ q ]),
      )
]

module _ (link_path : Text → Option Text) (here : Text) where
  -- The link leads to the page, or to a page above it.
  abbrev pub Leads : Link → Type 0
  Leads a = (path : Text) × (link_path a.href ≡ some path) × Under here path

  abbrev pub Parses : Link → Type 0
  Parses a = (path : Text) × (link_path a.href ≡ some path)

  -- A link of the document with what became of it.
  abbrev Marked : Link → Link → Type 0
  Marked a m =
      (m.href ≡ a.href)
      × (m.details ≡ a.details)
      × (m.active ≡ true → (a.active ≡ true) ⊎ Leads a)
      × (a.active ≡ true → m.active ≡ true)
      × (Leads a → m.active ≡ true)

  abbrev pub AllMarked : List Link → List Link → Type 0
  AllMarked [] [] = Unit
  AllMarked [] (m ∷ ms) = ⊥
  AllMarked (a ∷ ls) [] = ⊥
  AllMarked (a ∷ ls) (m ∷ ms) = Marked a m × AllMarked ls ms

  -- Some link in the group leads to the page.
  abbrev pub SomeLeads : ℕ → List Link → Type 0
  SomeLeads d [] = ⊥
  SomeLeads d (a ∷ ls) = ((a.details ≡ some d) × Leads a) ⊎ SomeLeads d ls

  hit_of_Leads :
      (a : Link) (path : Text) → link_path a.href ≡ some path → Leads a → is_here here path ≡ true
  hit_of_Leads a path e (other, p, under) =
      let same : path ≡ other = cc (e, p) in (is_here-Under here path).1 (rw same under)

  Marked-hit :
      (a : Link) (path : Text)
      → link_path a.href ≡ some path
      → is_here here path ≡ true
      → Marked a (record a { active = true })
  Marked-hit a path e hit =
      (refl, refl, (λ h. inr (path, e, (is_here-Under here path).0 hit)), (λ h. refl), (λ h. refl))

  Marked-miss :
      (a : Link) (path : Text)
      → link_path a.href ≡ some path
      → is_here here path ≡ false
      → Marked a a
  Marked-miss a path e miss =
      (refl, refl, (λ h. inl h), (λ h. h), (λ l. absurd (cc (miss, hit_of_Leads a path e l))))

  -- How the loop leaves the sidebar, where every link parses.
  pub record Highlighted (links : List Link) (opened : ℕ → Bool) (s : Sidebar) : Type 0 where
    pub marks : AllMarked links s.links
    pub opens : (d : ℕ) → (s.opened d ≡ true) ↔ ((opened d ≡ true) ⊎ SomeLeads d links)

  opens_hit :
      (a : Link) (links : List Link) (opened : ℕ → Bool) (shown : Bool) (d : ℕ)
      → Leads a
      → (shown ≡ true) ↔ ((open_details a.details opened d ≡ true) ⊎ SomeLeads d links)
      → (shown ≡ true) ↔ ((opened d ≡ true) ⊎ SomeLeads d (a ∷ links))
  opens_hit a links opened shown d l ih =
      let (there, back) = open_details_iff a.details opened d in
      (
        (λ o. elim (ih.0 o) [
          | inl now ↦ elim (there now) [ inl e ↦ inr (inl (e, l)) | inr old ↦ inl old ]
          | inr later ↦ inr (inr later)
        ]),
        (λ o. elim o [
          | inl old ↦ ih.1 (inl (back (inr old)))
          | inr (inl (e, _)) ↦ ih.1 (inl (back (inl e)))
          | inr (inr later) ↦ ih.1 (inr later)
        ]),
      )

  opens_miss :
      (a : Link) (links : List Link) (opened : ℕ → Bool) (shown : Bool) (d : ℕ)
      → (Leads a → ⊥)
      → (shown ≡ true) ↔ ((opened d ≡ true) ⊎ SomeLeads d links)
      → (shown ≡ true) ↔ ((opened d ≡ true) ⊎ SomeLeads d (a ∷ links))
  opens_miss a links opened shown d l ih = (
    (λ o. elim (ih.0 o) [ inl old ↦ inl old | inr later ↦ inr (inr later) ]),
    (λ o. elim o [
      | inl old ↦ ih.1 (inl old)
      | inr (inl (_, leads)) ↦ absurd (l leads)
      | inr (inr later) ↦ ih.1 (inr later)
    ]),
  )

  -- If the address of every link parses, then after the loop a link is active exactly if it was
  -- before or its path is that of the page or one above it, the links are otherwise unchanged and
  -- in their order, and a group is open exactly if it was before or some link in it leads to the
  -- page.
  pub highlight-Highlighted :
      (links : List Link) (opened : ℕ → Bool)
      → All Parses links
      → Highlighted links opened (highlight link_path here links opened)
  unfolding highlight
  highlight-Highlighted [] opened h = record {
    marks = tt;
    opens = λ d. ((λ e. inl e), (λ e. elim e [ inl f ↦ f | inr f ↦ absurd f ]));
  }
  highlight-Highlighted (a ∷ links) opened ((path, e), h) = elim (Bool-cases (is_here here path)) [
    | inl hit ↦
        let ih = highlight-Highlighted links (open_details a.details opened) h in
        let leads : Leads a = (path, e, (is_here-Under here path).0 hit) in
        rw (e, highlight, hit)
          (record {
            marks = (Marked-hit a path e hit, ih.marks);
            opens = λ d. opens_hit a links opened _ d leads (ih.opens d);
          })
    | inr miss ↦
        let ih = highlight-Highlighted links opened h in
        let astray : Leads a → ⊥ = λ l. absurd (cc (miss, hit_of_Leads a path e l)) in
        rw (e, highlight, miss)
          (record {
            marks = (Marked-miss a path e miss, ih.marks);
            opens = λ d. opens_miss a links opened _ d astray (ih.opens d);
          })
  ]
