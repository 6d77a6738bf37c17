-- ===== src/Retention/Newest.antt =====
-- packages/core/src/backup/retention-service.ts: the order of the verified artifacts.
use mathlib.Core.List.{Perm}
use mathlib.Core.List.Perm
use zima_control.Common.{
  ℕ, zero, suc, ◌≤◌, ◌≡◌, refl, inl, inr, Bool, true, ◌&&◌, List, [], ◌∷◌, leb, length, take, drop,
  select, all, Bool-cases, arith,
}
use zima_control.Retention.{
  BackupArtifact, verified_time, insert_newest, newest_first, verified_artifacts, is_counted,
}

-- No artifact of the list is newer than this time.
abbrev pub none_after : ℕ → List BackupArtifact → Bool
none_after t xs = all (λ c. leb (verified_time c) t) xs

abbrev is_descending : List BackupArtifact → Bool
is_descending [] = true
is_descending (x ∷ xs) = none_after (verified_time x) xs && is_descending xs

none_after-insert :
    (t : ℕ) (a : BackupArtifact) (bs : List BackupArtifact)
    → leb (verified_time a) t ≡ true
    → none_after t bs ≡ true
    → none_after t (insert_newest a bs) ≡ true
none_after-insert t a [] h g = ground (arith, h)
none_after-insert t a (b ∷ bs) h g = ground (arith, h, g, none_after-insert t a bs h)

none_after_mono :
    (t u : ℕ) (bs : List BackupArtifact) → t ≤ u → none_after t bs ≡ true → none_after u bs ≡ true
none_after_mono t u [] h g = refl
none_after_mono t u (b ∷ bs) h g = ground (arith, h, g, none_after_mono t u bs h)

insert_newest-descending :
    (a : BackupArtifact) (bs : List BackupArtifact)
    → is_descending bs ≡ true
    → is_descending (insert_newest a bs) ≡ true
insert_newest-descending a [] h = refl
insert_newest-descending a (b ∷ bs) h =
    elim (Bool-cases (leb (verified_time b) (verified_time a))) [
      | inl e ↦ ground (arith, e, h, none_after_mono (verified_time b) (verified_time a) bs)
      | inr e ↦
          ground
            (arith, e, h, insert_newest-descending a bs, none_after-insert (verified_time b) a bs)
    ]

newest_first-descending : (xs : List BackupArtifact) → is_descending (newest_first xs) ≡ true
newest_first-descending [] = refl
newest_first-descending (x ∷ xs) =
    insert_newest-descending x (newest_first xs) (newest_first-descending xs)

none_after-drop :
    (t n : ℕ) (xs : List BackupArtifact) → none_after t xs ≡ true → none_after t (drop n xs) ≡ true
none_after-drop t zero xs h = h
none_after-drop t (suc n) [] h = refl
none_after-drop t (suc n) (x ∷ xs) h = none_after-drop t n xs (ground (arith, h))

descending-take :
    (n : ℕ) (xs : List BackupArtifact)
    → is_descending xs ≡ true
    → all (λ k. none_after (verified_time k) (drop n xs)) (take n xs) ≡ true
descending-take zero xs h = refl
descending-take (suc n) [] h = refl
descending-take (suc n) (x ∷ xs) h =
    let here = none_after-drop (verified_time x) n xs (ground (arith, h)) in
    let rest = descending-take n xs (ground (arith, h)) in ground (arith, here, rest)

-- What is after the newest ones is not newer than any of them.
pub drop-verified :
    (n : ℕ) (artifacts : List BackupArtifact)
    → all
        (λ k. none_after (verified_time k) (drop n (verified_artifacts artifacts)))
        (take n (verified_artifacts artifacts))
      ≡ true
drop-verified n artifacts =
    descending-take n (verified_artifacts artifacts)
      (newest_first-descending (select is_counted artifacts))

insert_newest-perm :
    (a : BackupArtifact) (bs : List BackupArtifact) → Perm (insert_newest a bs) (a ∷ bs)
insert_newest-perm a [] = Perm.rfl
insert_newest-perm a (b ∷ bs) = elim (Bool-cases (leb (verified_time b) (verified_time a))) [
  | inl e ↦ rw e Perm.rfl
  | inr e ↦ rw e (Perm.trans (Perm.cons b (insert_newest-perm a bs)) (Perm.swap a b bs))
]

newest_first-perm : (xs : List BackupArtifact) → Perm (newest_first xs) xs
newest_first-perm [] = Perm.rfl
newest_first-perm (x ∷ xs) =
    Perm.trans (insert_newest-perm x (newest_first xs)) (Perm.cons x (newest_first-perm xs))

-- They are the counted ones, in another order.
pub verified-perm :
    (artifacts : List BackupArtifact)
    → Perm (verified_artifacts artifacts) (select is_counted artifacts)
verified-perm artifacts = newest_first-perm (select is_counted artifacts)

length-insert_newest :
    (a : BackupArtifact) (bs : List BackupArtifact) → length (insert_newest a bs) ≡ suc (length bs)
length-insert_newest a [] = refl
length-insert_newest a (b ∷ bs) = ground (arith, length-insert_newest a bs)

length-newest_first : (xs : List BackupArtifact) → length (newest_first xs) ≡ length xs
length-newest_first [] = refl
length-newest_first (x ∷ xs) =
    ground (arith, length-insert_newest x (newest_first xs), length-newest_first xs)

pub length-verified :
    (artifacts : List BackupArtifact)
    → length (verified_artifacts artifacts) ≡ length (select is_counted artifacts)
length-verified artifacts = length-newest_first (select is_counted artifacts)
