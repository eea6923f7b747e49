-- ===== src/Downloads/Admission.antt =====
-- When a download plan is admitted against the state of the downloads
-- (src/comfyui_docker_helper/container/runtime/files/reconciliation.py).
use comfyui_docker_helper.Prelude.{
  ℕ, Bool, true, false, not, List, [], ◌∷◌, All, Option, none, some, is_some, if◌then◌else◌, ◌==◌,
  ==_iff, arith, subst, ◌≡◌, ◌≢◌, ◌↔◌, refl, Bool-cases, inl, inr,
}
use comfyui_docker_helper.Targets.{Text}
use comfyui_docker_helper.Downloads.{
  RuntimeDownloadEntry, RuntimeState, Digests, desired_digest, entry_transfer_digest, find_owner,
  is_other, with_namespace, validate_entries, validate_runtime_state_entries, PlannedDownload,
  or_downloader, entry_agrees, find_entry, Admitted, admitted, check_entry, item_digest,
  check_items, after_entries, validate_runtime_file_state_plan,
}
use comfyui_docker_helper.Downloads.Comparing.{Agrees, Agrees-iff}

-- Pairwise different numbers.
abbrev pub AllDifferent {ℓ} : {A : Type ℓ} → (A → ℕ) → List A → Type 0
AllDifferent f [] = Unit
AllDifferent f (x ∷ xs) = All (λ y. f x ≢ f y) xs × AllDifferent f xs

abbrev pub key_of : ℕ × RuntimeDownloadEntry → ℕ
key_of (digest, e) = digest

abbrev pub namespace_of : Digests → ℕ × RuntimeDownloadEntry → ℕ
namespace_of d (digest, e) = entry_transfer_digest d e

-- The key of an entry is the digest of its desired identity.
abbrev pub Keyed : Digests → ℕ × RuntimeDownloadEntry → Type 0
Keyed d (digest, e) = desired_digest d e ≡ digest

-- No namespace has an owner with another digest exactly where no earlier entry has this namespace.
owner_iff :
    (namespace digest : ℕ) (owners : List (ℕ × ℕ))
    → All (λ (o : ℕ × ℕ). o.1 ≢ digest) owners
    → (is_other (find_owner namespace owners) digest ≡ false)
      ↔ All (λ (o : ℕ × ℕ). o.0 ≢ namespace) owners
unfolding find_owner
owner_iff namespace digest [] h = (λ e. tt, λ k. refl)
owner_iff namespace digest ((n, owner) ∷ owners) h =
    let rest = owner_iff namespace digest owners h.1 in
    elim (Bool-cases (n == namespace)) [
      | inl here ↦
          rw here (λ e. absurd (h.0 (ground (arith, e))), λ k. absurd (k.0 (ground (arith, here))))
      | inr other ↦
          rw other (λ e. ((λ same. ground (arith, other, same)), rest.0 e), λ k. rest.1 k.1)
    ]

-- The later entries are not in the namespaces, or under the keys, of the earlier ones.
abbrev Fresh : Digests → List (ℕ × ℕ) → List (ℕ × RuntimeDownloadEntry) → Type 0
Fresh d owners entries =
    All (λ (x : ℕ × RuntimeDownloadEntry). All (λ (o : ℕ × ℕ). o.0 ≢ namespace_of d x) owners)
      entries

abbrev Unseen : List (ℕ × ℕ) → List (ℕ × RuntimeDownloadEntry) → Type 0
Unseen owners entries =
    All (λ (x : ℕ × RuntimeDownloadEntry). All (λ (o : ℕ × ℕ). o.1 ≢ key_of x) owners) entries

All-both {κ μ} :
    {A : Type 0} (P : A → Type κ) (Q : A → Type μ) (xs : List A)
    → (All P xs × All Q xs) ↔ All (λ x. P x × Q x) xs
All-both P Q [] = (λ h. tt, λ h. (tt, tt))
All-both P Q (x ∷ xs) =
    let (to, from) = All-both P Q xs in
    (
      λ ((h, hs), (k, ks)). ((h, k), to (hs, ks)),
      λ ((h, k), hs). ((h, (from hs).0), (k, (from hs).1)),
    )

turn_iff :
    (a b : Bool) (digest namespace : ℕ) (rest : Option (List (ℕ × ℕ)))
    → (is_some (if not a then none else if b then none else with_namespace digest namespace rest)
        ≡ true)
      ↔ ((a ≡ true) × ((b ≡ false) × (is_some rest ≡ true)))
turn_iff true true digest namespace rest = (λ e. absurd (cc e), λ h. absurd (cc h.1.0))
turn_iff true false digest namespace none = (λ e. absurd (cc e), λ h. absurd (cc h.1.1))
turn_iff true false digest namespace (some r) = (λ e. (refl, (refl, refl)), λ h. refl)
turn_iff false b digest namespace rest = (λ e. absurd (cc e), λ h. absurd (cc h.0))

entries_iff :
    (d : Digests) (owners : List (ℕ × ℕ)) (entries : List (ℕ × RuntimeDownloadEntry))
    → Unseen owners entries
    → AllDifferent key_of entries
    → (is_some (validate_entries d owners entries) ≡ true)
      ↔ (All (Keyed d) entries × (Fresh d owners entries × AllDifferent (namespace_of d) entries))
unfolding validate_entries
entries_iff d owners [] unseen different = (λ e. (tt, (tt, tt)), λ h. refl)
entries_iff d owners ((digest, e) ∷ entries) unseen different =
    let namespace = entry_transfer_digest d e in
    let later = (All-both _ _ entries).0 (different.0, unseen.1) in
    let (to, from) = entries_iff d ((namespace, digest) ∷ owners) entries later different.1 in
    let (turn, back) =
      turn_iff (desired_digest d e == digest) (is_other (find_owner namespace owners) digest) digest
        namespace (validate_entries d ((namespace, digest) ∷ owners) entries) in
    let (keyed, key) = ==_iff (desired_digest d e) digest in
    let (free, owned) = owner_iff namespace digest owners unseen.0 in
    (
      λ h.
          let (same, (none_other, rest)) = turn h in
          let (all_keyed, (fresh, apart)) = to rest in
          let (differs, fresh) = (All-both _ _ entries).1 fresh in
          ((keyed same, all_keyed), ((free none_other, fresh), (differs, apart))),
      λ ((same, all_keyed), ((here, fresh), (differs, apart))). back (
        key same,
        (owned here, from (all_keyed, ((All-both _ _ entries).0 (differs, fresh), apart))),
      ),
    )

-- The state holds an entry that agrees with this planned download.
abbrev pub HasEntry : Digests → Text → RuntimeState → PlannedDownload → Type 0
HasEntry d default_downloader s p =
    let downloader = or_downloader default_downloader p.item.downloader in
    (e : RuntimeDownloadEntry) × (find_entry (item_digest d downloader p) s.downloads ≡ some e)
    × Agrees d downloader e p

check_entry_iff :
    (d : Digests) (downloader : Text) (p : PlannedDownload)
    → (o : Option RuntimeDownloadEntry) (rest : Admitted)
    → (check_entry d downloader p o rest ≡ admitted)
      ↔ (((e : RuntimeDownloadEntry) × (o ≡ some e) × Agrees d downloader e p) × (rest ≡ admitted))
check_entry_iff d downloader p none rest = (λ e. absurd (cc e), λ ((x, e, h), r). absurd (cc e))
check_entry_iff d downloader p (some e) rest =
    let (to, from) = Agrees-iff d downloader e p in
    elim (Bool-cases (entry_agrees d downloader e p)) [
      | inl same ↦ rw same (λ r. ((e, refl, to same), r), λ (x, r). r)
      | inr other ↦
          rw other (λ r. absurd (cc r), λ ((x, found, h), r). absurd (agreed x other found h))
    ]
  where
    agreed :
        (x : RuntimeDownloadEntry)
        → entry_agrees d downloader e p ≡ false
        → some e ≡ some x
        → Agrees d downloader x p
        → ⊥
    agreed x other found h =
        let here : x ≡ e = cc found in
        let agrees =
          (Agrees-iff d downloader e p).1 (subst (λ y. Agrees d downloader y p) here h) in
        cc (agrees, other)

check_items_iff :
    (d : Digests) (default_downloader : Text) (s : RuntimeState) (plan : List PlannedDownload)
    → (check_items d default_downloader s plan ≡ admitted)
      ↔ All (HasEntry d default_downloader s) plan
unfolding check_items
check_items_iff d default_downloader s [] = (λ e. tt, λ h. refl)
check_items_iff d default_downloader s (p ∷ plan) =
    let downloader = or_downloader default_downloader p.item.downloader in
    let (to, from) = check_items_iff d default_downloader s plan in
    let (here, back) =
      check_entry_iff d downloader p (find_entry (item_digest d downloader p) s.downloads)
        (check_items d default_downloader s plan) in
    (λ e. ((here e).0, to (here e).1), λ (h, hs). back (h, from hs))

after_entries_iff :
    (o : Option (List (ℕ × ℕ))) (b : Bool) (rest : Admitted)
    → (after_entries o b rest ≡ admitted) ↔ ((is_some o ≡ true) × ((b ≡ true) × (rest ≡ admitted)))
after_entries_iff none b rest = (λ e. absurd (cc e), λ h. absurd (cc h.0))
after_entries_iff (some n) true rest = (λ e. (refl, (refl, e)), λ h. h.1.1)
after_entries_iff (some n) false rest = (λ e. absurd (cc e), λ h. absurd (cc h.1.0))

-- No entry is in the namespace of the artifacts of another.
abbrev pub SoundState : Digests → RuntimeState → Type 0
SoundState d s = All (Keyed d) s.downloads × AllDifferent (namespace_of d) s.downloads

nothing-Unseen : (entries : List (ℕ × RuntimeDownloadEntry)) → Unseen [] entries
nothing-Unseen [] = tt
nothing-Unseen (x ∷ entries) = (tt, nothing-Unseen entries)

nothing-Fresh : (d : Digests) (entries : List (ℕ × RuntimeDownloadEntry)) → Fresh d [] entries
nothing-Fresh d [] = tt
nothing-Fresh d (x ∷ entries) = (tt, nothing-Fresh d entries)

-- A download plan is admitted against a state whose entries have different keys exactly where each key
-- is the digest of its entry, no two entries share the namespace of their artifacts, the state belongs to
-- the expected run, and the entry at the digest of each planned download is pending and agrees with it in
-- every field, its authority to resume included.
pub admission_iff :
    (d : Digests) (default_downloader : Text) (expected_run_id : ℕ)
    → (plan : List PlannedDownload) (s : RuntimeState) → AllDifferent key_of s.downloads
    → (validate_runtime_file_state_plan d default_downloader expected_run_id plan s ≡ admitted) ↔ (
        SoundState d s
        × ((s.run_id ≡ expected_run_id) × All (HasEntry d default_downloader s) plan))
unfolding validate_runtime_file_state_plan validate_runtime_state_entries
admission_iff d default_downloader expected_run_id plan s different =
    let (sound, back) = entries_iff d [] s.downloads (nothing-Unseen s.downloads) different in
    let (items, all_items) = check_items_iff d default_downloader s plan in
    let (run, same_run) = ==_iff s.run_id expected_run_id in
    let (to, from) =
      after_entries_iff (validate_entries d [] s.downloads) (s.run_id == expected_run_id)
        (check_items d default_downloader s plan) in
    (
      λ e.
          let (valid, (this_run, rest)) = to e in
          let (keyed, (fresh, apart)) = sound valid in ((keyed, apart), (run this_run, items rest)),
      λ ((keyed, apart), (this_run, rest)).
          from (
            back (keyed, (nothing-Fresh d s.downloads, apart)),
            (same_run this_run, all_items rest),
          ),
    )
