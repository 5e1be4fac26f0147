-- ===== src/Cl3/Linked.antt =====
-- What the operations of src/format/cl3.cpp on the entries of an archive keep: that names fit, and that links lead to
-- entries.
use neptools.Prelude.{
  ℕ, zero, suc, ◌<◌, ◌≡◌, sym, ap, ◌∙◌, Option, none, some, List, [], ◌∷◌, ◌++◌, length, get_elem?,
  set,
}
use neptools.Cl3.{Dumpable, Entry, Cl3, fixup_src, fixup_entries, fixup}
use neptools.Cl3.Sizes.{IsSized, AreSized}
use neptools.Cl3.Placed.{IdAt, AreLinked, AreWritable}

AreLinked-map :
    (all all' : List Entry) (links : List ℕ)
    → ((j id : ℕ) → IdAt j id all → IdAt j id all')
    → AreLinked all links
    → AreLinked all' links
AreLinked-map all all' [] keep h = tt
AreLinked-map all all' (link ∷ links) keep h =
    ((h.0.0, keep h.0.0 link h.0.1), AreLinked-map all all' links keep h.1)

pub AreWritable-map :
    (all all' entries : List Entry)
    → ((j id : ℕ) → IdAt j id all → IdAt j id all')
    → AreWritable all entries
    → AreWritable all' entries
AreWritable-map all all' [] keep h = tt
AreWritable-map all all' (x ∷ xs) keep h =
    (h.0, AreLinked-map all all' x.links keep h.1, AreWritable-map all all' xs keep h.2)

pub AreLinked-append :
    (all : List Entry) (xs ys : List ℕ)
    → AreLinked all xs
    → AreLinked all ys
    → AreLinked all (xs ++ ys)
AreLinked-append all [] ys h k = k
AreLinked-append all (x ∷ xs) ys h k = (h.0, AreLinked-append all xs ys h.1 k)

pub IdAt-get :
    (i : ℕ) (entries : List Entry) (x : Entry) → get_elem? entries i ≡ some x → IdAt i x.id entries
IdAt-get i [] x h = cc
IdAt-get zero (e ∷ entries) x h = let same : e ≡ x = cc in ap (λ y. y.id) same
IdAt-get (suc i) (e ∷ entries) x h = IdAt-get i entries x h

-- An entry that takes the place of one with its number.
pub IdAt-set :
    (i j id : ℕ) (entries : List Entry) (x y : Entry)
    → get_elem? entries i ≡ some x
    → y.id ≡ x.id
    → IdAt j id entries
    → IdAt j id (set entries i y)
IdAt-set i j id [] x y g s h = absurd h
IdAt-set zero zero id (e ∷ entries) x y g s h =
    let same : e ≡ x = cc in s ∙ sym (ap (λ z. z.id) same) ∙ h
IdAt-set zero (suc j) id (e ∷ entries) x y g s h = h
IdAt-set (suc i) zero id (e ∷ entries) x y g s h = h
IdAt-set (suc i) (suc j) id (e ∷ entries) x y g s h = IdAt-set i j id entries x y g s h

pub AreWritable-set :
    (all : List Entry) (i : ℕ) (entries : List Entry) (y : Entry)
    → length y.name < 0x200
    → AreLinked all y.links
    → AreWritable all entries
    → AreWritable all (set entries i y)
AreWritable-set all i [] y n l h = tt
AreWritable-set all zero (e ∷ entries) y n l h = (n, l, h.2)
AreWritable-set all (suc i) (e ∷ entries) y n l h =
    (h.0, h.1, AreWritable-set all i entries y n l h.2)

pub AreSized-set :
    (i : ℕ) (entries : List Entry) (y : Entry)
    → IsSized y.src
    → AreSized entries
    → AreSized (set entries i y)
AreSized-set i [] y s h = tt
AreSized-set zero (e ∷ entries) y s h = (s, h.1)
AreSized-set (suc i) (e ∷ entries) y s h = (h.0, AreSized-set i entries y s h.1)

-- What holds of all entries holds of one.
pub AreWritable-get :
    (all : List Entry) (i : ℕ) (entries : List Entry) (x : Entry)
    → get_elem? entries i ≡ some x
    → AreWritable all entries
    → (length x.name < 0x200) × AreLinked all x.links
AreWritable-get all i [] x g h = cc
AreWritable-get all zero (e ∷ entries) x g h = let same : e ≡ x = cc in rw (← same) (h.0, h.1)
AreWritable-get all (suc i) (e ∷ entries) x g h = AreWritable-get all i entries x g h.2

pub AreSized-get :
    (i : ℕ) (entries : List Entry) (x : Entry)
    → get_elem? entries i ≡ some x
    → AreSized entries
    → IsSized x.src
AreSized-get i [] x g h = cc
AreSized-get zero (e ∷ entries) x g h = let same : e ≡ x = cc in rw (← same) h.0
AreSized-get (suc i) (e ∷ entries) x g h = AreSized-get i entries x g h.1

-- `Fixup` keeps numbers, names and links, and the files' sizes if their own `Fixup` does.
IdAt-fixup_entries :
    (f : Dumpable → Dumpable) (j id : ℕ) (entries : List Entry) (d l : ℕ)
    → IdAt j id entries
    → IdAt j id (fixup_entries f entries d l).0
unfolding fixup_entries
IdAt-fixup_entries f j id [] d l h = absurd h
IdAt-fixup_entries f zero id (e ∷ entries) d l h = h
IdAt-fixup_entries f (suc j) id (e ∷ entries) d l h = IdAt-fixup_entries f j id entries _ _ h

AreWritable-fixup_entries :
    (f : Dumpable → Dumpable) (all entries : List Entry) (d l : ℕ)
    → AreWritable all entries
    → AreWritable all (fixup_entries f entries d l).0
unfolding fixup_entries
AreWritable-fixup_entries f all [] d l h = tt
AreWritable-fixup_entries f all (e ∷ entries) d l h =
    (h.0, h.1, AreWritable-fixup_entries f all entries _ _ h.2)

IsSized-fixup_src :
    (f : Dumpable → Dumpable) (src : Option Dumpable)
    → ((d : Dumpable) → length d.contents ≡ d.size → length (f d).contents ≡ (f d).size)
    → IsSized src
    → IsSized (fixup_src f src)
IsSized-fixup_src f none keep h = tt
IsSized-fixup_src f (some d) keep h = keep d h

AreSized-fixup_entries :
    (f : Dumpable → Dumpable) (entries : List Entry) (d l : ℕ)
    → ((d : Dumpable) → length d.contents ≡ d.size → length (f d).contents ≡ (f d).size)
    → AreSized entries
    → AreSized (fixup_entries f entries d l).0
unfolding fixup_entries
AreSized-fixup_entries f [] d l keep h = tt
AreSized-fixup_entries f (e ∷ entries) d l keep h =
    (IsSized-fixup_src f e.src keep h.0, AreSized-fixup_entries f entries _ _ keep h.1)

pub AreWritable-fixup :
    (f : Dumpable → Dumpable) (c : Cl3)
    → AreWritable c.entries c.entries
    → AreWritable (fixup f c).entries (fixup f c).entries
unfolding fixup
AreWritable-fixup f c h = AreWritable-fixup_entries f _ c.entries 0 0 (
    AreWritable-map c.entries _ c.entries
      (λ j id there. IdAt-fixup_entries f j id c.entries 0 0 there) h)

pub AreSized-fixup :
    (f : Dumpable → Dumpable) (c : Cl3)
    → ((d : Dumpable) → length d.contents ≡ d.size → length (f d).contents ≡ (f d).size)
    → AreSized c.entries
    → AreSized (fixup f c).entries
unfolding fixup
AreSized-fixup f c keep h = AreSized-fixup_entries f c.entries 0 0 keep h
