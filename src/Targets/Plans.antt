-- ===== src/Targets/Plans.antt =====
-- When the runtime's file downloads have a plan, and which
-- (src/comfyui_docker_helper/container/runtime/files/planning.py).
use comfyui_docker_helper.Prelude.{
  ℕ, suc, Bool, true, false, not, List, [], ◌∷◌, ◌++◌, All, if◌then◌else◌, arith, ◌≡◌, ◌↔◌, refl,
  sym, ap, subst,
}
use comfyui_docker_helper.Targets.{
  Text, any, TargetResult, valid_target, invalid_target, validate_relative_file_target,
  has_reserved,
}
use comfyui_docker_helper.Targets.Planning.{
  RuntimeFileConfig, Validated, schema_refused, schema_accepted, PlanDiagnostic,
  RuntimeFilePlanItem, planned, targets_overlap, make_item, TurnResult, refuse, parts_of,
  PlanEnvironment, place, plan_turn, plan_files, plan_of, build_runtime_file_plan,
}

-- Neither target region is equal to, contains or lies in the other.
abbrev pub Apart : List Text → List Text → Type 0
Apart p q = targets_overlap p q ≡ false

abbrev pub AllApart : List (List Text) → Type 0
AllApart [] = Unit
AllApart (p ∷ paths) = All (Apart p) paths × AllApart paths

-- The item is the one that this file asks for, below a root that is not reserved.
pub record Asked (env : PlanEnvironment) (config : RuntimeFileConfig) (item : RuntimeFilePlanItem)
    : Type 0 where
  pub good_url : env.is_http_url config.url ≡ true
  pub good_target : validate_relative_file_target false config.target ≡ valid_target item.parts
  pub good_root : has_reserved env.root_parts ≡ false
  pub same : make_item env.default_download_mode config item.parts ≡ item

abbrev pub MadeFrom : PlanEnvironment → Validated → RuntimeFilePlanItem → Type 0
MadeFrom env (schema_refused code codes) item = ⊥
MadeFrom env (schema_accepted config) item = Asked env config item

-- One item for each file, in order.
abbrev pub EachMade : PlanEnvironment → List Validated → List RuntimeFilePlanItem → Type 0
EachMade env [] [] = Unit
EachMade env [] (item ∷ items) = ⊥
EachMade env (file ∷ files) [] = ⊥
EachMade env (file ∷ files) (item ∷ items) = MadeFrom env file item × EachMade env files items

-- The paths are apart from all the established ones.
abbrev ApartFrom : List (List Text) → List (List Text) → Type 0
ApartFrom established paths = All (λ p. All (λ e. Apart e p) established) paths

All-snoc {ℓ κ} :
    {A : Type ℓ} (P : A → Type κ) (xs : List A) (x : A) → All P (xs ++ x ∷ []) ↔ (All P xs × P x)
All-snoc P [] x = (λ (h, t). (tt, h), λ (t, h). (h, tt))
All-snoc P (y ∷ xs) x =
    let (to, from) = All-snoc P xs x in
    (λ (h, hs). ((h, (to hs).0), (to hs).1), λ ((h, hs), k). (h, from (hs, k)))

ApartFrom-snoc :
    (established : List (List Text)) (q : List Text) (paths : List (List Text))
    → ApartFrom (established ++ q ∷ []) paths ↔ (ApartFrom established paths × All (Apart q) paths)
ApartFrom-snoc established q [] = (λ h. (tt, tt), λ h. tt)
ApartFrom-snoc established q (p ∷ paths) =
    let (to, from) = All-snoc (λ (e : List Text). Apart e p) established q in
    let (tos, froms) = ApartFrom-snoc established q paths in
    (
      λ (h, hs). (((to h).0, (tos hs).0), ((to h).1, (tos hs).1)),
      λ ((h, hs), (k, ks)). (from (h, k), froms (hs, ks)),
    )

nothing-ApartFrom : (paths : List (List Text)) → ApartFrom [] paths
nothing-ApartFrom [] = tt
nothing-ApartFrom (p ∷ paths) = (tt, nothing-ApartFrom paths)

any_iff :
    (p : List Text) (established : List (List Text))
    → (any (λ (e : List Text). targets_overlap e p) established ≡ false)
      ↔ All (λ e. Apart e p) established
any_iff p [] = (λ e. tt, λ h. refl)
any_iff p (q ∷ established) = ground (arith, any_iff p established)

both_nil {ℓ} : {A : Type ℓ} (xs ys : List A) → xs ++ ys ≡ [] → (xs ≡ []) × (ys ≡ [])
both_nil [] ys e = (refl, e)
both_nil (x ∷ xs) ys e = absurd (cc e)

-- A turn without diagnostics makes one item of its file.
record Turned (env : PlanEnvironment) (established : List (List Text)) (file : Validated)
    (turn : TurnResult) : Type 0 where
  item : RuntimeFilePlanItem
  one : turn.made ≡ item ∷ []
  made_from : MadeFrom env file item
  apart : All (λ e. Apart e item.parts) established

no_trouble :
    (reserved overlaps : Bool) (c d : PlanDiagnostic) (made : List RuntimeFilePlanItem)
    → (if reserved
        then refuse (c ∷ [])
        else record { diagnostics = if overlaps then d ∷ [] else []; made = made }).diagnostics
      ≡ []
    → (reserved ≡ false) × (overlaps ≡ false)
no_trouble true overlaps c d made e = absurd (cc e)
no_trouble false true c d made e = absurd (cc e)
no_trouble false false c d made e = (refl, refl)

place-Turned :
    (env : PlanEnvironment) (index : ℕ) (established : List (List Text))
    → (config : RuntimeFileConfig) (result : TargetResult) → env.is_http_url config.url ≡ true
    → validate_relative_file_target false config.target ≡ result
    → (place env index established config result).diagnostics ≡ []
    → Turned env established (schema_accepted config) (place env index established config result)
place-Turned env index established config (invalid_target code) url target e = absurd (cc e)
place-Turned env index established config (valid_target parts) url target e =
    let (root, apart) = no_trouble (has_reserved env.root_parts) _ _ _ _ e in
    record {
      item = make_item env.default_download_mode config parts;
      one = rw root refl;
      made_from = record { good_url = url; good_target = target; good_root = root; same = refl };
      apart = (any_iff parts established).0 apart;
    }

turn-Turned :
    (env : PlanEnvironment) (index : ℕ) (established : List (List Text)) (file : Validated)
    → (plan_turn env index established file).diagnostics ≡ []
    → Turned env established file (plan_turn env index established file)
turn-Turned env index established (schema_refused code codes) e = absurd (cc e)
turn-Turned env index established (schema_accepted config) e =
    let result = validate_relative_file_target false config.target in
    at_url (env.is_http_url config.url) _ _ e
      (λ url e. place-Turned env index established config result url refl e)
  where
    at_url :
        (b : Bool) (d : PlanDiagnostic) (turn : TurnResult)
        → (if not b then refuse (d ∷ []) else turn).diagnostics ≡ []
        → (b ≡ true → turn.diagnostics ≡ [] → Turned env established (schema_accepted config) turn)
        → Turned env established (schema_accepted config) (if not b then refuse (d ∷ []) else turn)
    at_url true d turn e next = next refl e
    at_url false d turn e next = absurd (cc e)

-- The turn of a file that asks for an item which is apart from the established ones.
turn-made :
    (env : PlanEnvironment) (index : ℕ) (established : List (List Text))
    → (file : Validated) (item : RuntimeFilePlanItem) → MadeFrom env file item
    → All (λ e. Apart e item.parts) established
    → plan_turn env index established file ≡ record { diagnostics = []; made = item ∷ [] }
turn-made env index established (schema_refused code codes) item h k = absurd h
turn-made env index established (schema_accepted config) item h k =
    rw (h.good_url, h.good_target, h.good_root, (any_iff item.parts established).1 k)
      (ap one_item h.same)
  where
    one_item : RuntimeFilePlanItem → TurnResult
    one_item i = record { diagnostics = []; made = i ∷ [] }

-- The files have the items, apart from the established ones and each other.
record Whole (env : PlanEnvironment) (established : List (List Text)) (files : List Validated)
    (items : List RuntimeFilePlanItem) : Type 0 where
  made : EachMade env files items
  apart_from : ApartFrom established (parts_of items)
  all_apart : AllApart (parts_of items)

Turned-Whole :
    (env : PlanEnvironment) (established : List (List Text)) (file : Validated)
    → (files : List Validated) (turn : TurnResult) (rest : List RuntimeFilePlanItem)
    → Turned env established file turn
    → Whole env (established ++ parts_of turn.made) files rest
    → Whole env established (file ∷ files) (turn.made ++ rest)
Turned-Whole env established file files turn rest t w =
    let one = sym t.one in
    let w : Whole env (established ++ t.item.parts ∷ []) files rest =
      subst (λ made. Whole env (established ++ parts_of made) files rest) t.one w in
    let (from_old, from_new) =
      (ApartFrom-snoc established t.item.parts (parts_of rest)).0 w.apart_from in
    subst (λ made. Whole env established (file ∷ files) (made ++ rest)) one
      (record {
        made = (t.made_from, w.made);
        apart_from = (t.apart, from_old);
        all_apart = (from_new, w.all_apart);
      })

plan_files-Whole :
    (env : PlanEnvironment) (index : ℕ) (established : List (List Text)) (files : List Validated)
    → (plan_files env index established files).diagnostics ≡ []
    → Whole env established files (plan_files env index established files).made
unfolding plan_files
plan_files-Whole env index established [] e = record { made = tt; apart_from = tt; all_apart = tt }
plan_files-Whole env index established (file ∷ files) e =
    let turn = plan_turn env index established file in
    let later = established ++ parts_of turn.made in
    let rest = plan_files env (suc index) later files in
    let (here, there) = both_nil turn.diagnostics rest.diagnostics e in
    Turned-Whole env established file files turn rest.made
      (turn-Turned env index established file here)
      (plan_files-Whole env (suc index) later files there)

Whole-plan_files :
    (env : PlanEnvironment) (index : ℕ) (established : List (List Text))
    → (files : List Validated) (items : List RuntimeFilePlanItem)
    → Whole env established files items
    → plan_files env index established files ≡ record { diagnostics = []; made = items }
unfolding plan_files
Whole-plan_files env index established [] [] w = refl
Whole-plan_files env index established [] (item ∷ items) w = absurd w.made
Whole-plan_files env index established (file ∷ files) [] w = absurd w.made
Whole-plan_files env index established (file ∷ files) (item ∷ items) w =
    let rest =
      Whole-plan_files env (suc index) (established ++ item.parts ∷ []) files items (record {
        made = w.made.1;
        apart_from =
            (ApartFrom-snoc established item.parts (parts_of items)).1
              (w.apart_from.1, w.all_apart.0);
        all_apart = w.all_apart.1;
      }) in
    rw (turn-made env index established file item w.made.0 w.apart_from.0, rest) refl

planned-made :
    (diagnostics : List PlanDiagnostic) (made items : List RuntimeFilePlanItem)
    → plan_of (record { diagnostics = diagnostics; made = made }) ≡ planned items
    → (diagnostics ≡ []) × (made ≡ items)
planned-made [] made items e = (refl, cc e)
planned-made (d ∷ ds) made items e = absurd (cc e)

-- A plan is made exactly where every file passes its checks, no part of the root is reserved and no
-- target region is equal to, contains or lies in another; its items are then those that the files ask
-- for, one for each file and in their order. Otherwise there is an error.
pub plan_iff :
    (env : PlanEnvironment) (files : List Validated) (items : List RuntimeFilePlanItem)
    → (build_runtime_file_plan env files ≡ planned items)
      ↔ (EachMade env files items × AllApart (parts_of items))
unfolding build_runtime_file_plan
plan_iff env files items = (
  λ e.
      let result = plan_files env 0 [] files in
      let (none_wrong, made) = planned-made result.diagnostics result.made items e in
      let whole = subst (Whole env [] files) made (plan_files-Whole env 0 [] files none_wrong) in
      (whole.made, whole.all_apart),
  λ (each, apart).
      let made = Whole-plan_files env 0 [] files items (record {
        made = each;
        apart_from = nothing-ApartFrom (parts_of items);
        all_apart = apart;
      }) in
      rw made refl,
)
