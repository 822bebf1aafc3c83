-- ===== src/Cli/Objects.antt =====
-- The names that `register-objects` collects are those that ValidateBasic accepts unchanged.
use shinzohub.Prelude.{
  contains, Bytes, false, List, [], ◌∷◌, ◌++◌, ◌≡◌, ◌≢◌, inl, inr, refl, sym, ap, subst, arith, map,
  is_empty, Bool-cases, All, All-append, ok, err, length, ◌==◌, if◌then◌else◌, and_then, map_err,
  eq→same,
}
use shinzohub.Sourcehub.Messages.{
  Strings, MsgRegisterShinzoObjects, normalize, validate_register_shinzo_objects,
}
use shinzohub.Sourcehub.Messages.Objects.{
  Settles, Distinct, NonEmpty, validate_register_shinzo_objects_iff,
}
use shinzohub.Sourcehub.Server.{Msg}
use shinzohub.Cli.{Client, CliError, collect_resources, cmd_register_objects}

-- Normalised names, none empty and none twice.
pub record IsClean (lib : Strings) (rs : List Bytes) : Type 0 where
  pub non_empty : NonEmpty rs
  pub distinct : Distinct rs
  pub normal : All (λ r. normalize lib r ≡ r) rs

Distinct-snoc :
    (r : Bytes) (rs : List Bytes) → contains r rs ≡ false → Distinct rs → Distinct (rs ++ r ∷ [])
unfolding contains
Distinct-snoc r [] h d = (tt, tt)
Distinct-snoc r (x ∷ rs) h d = (
  All-append (λ y. x ≢ y) rs (r ∷ []) d.0 ((λ e. absurd (ground (arith, eq→same r x (sym e)))), tt),
  Distinct-snoc r rs (ground arith) d.1,
)

IsClean-snoc :
    (lib : Strings) (a : Bytes) (rs : List Bytes)
    → Settles lib
    → is_empty (normalize lib a) ≡ false
    → contains (normalize lib a) rs ≡ false
    → IsClean lib rs
    → IsClean lib (rs ++ normalize lib a ∷ [])
IsClean-snoc lib a rs settles ne new c = record {
  non_empty =
      All-append (λ y. y ≢ []) rs (normalize lib a ∷ []) c.non_empty
        ((λ z. cc (ap is_empty z, ne)), tt);
  distinct = Distinct-snoc (normalize lib a) rs new c.distinct;
  normal = All-append (λ r. normalize lib r ≡ r) rs (normalize lib a ∷ []) c.normal (settles a, tt);
}

collect_resources-IsClean :
    (lib : Strings) (rs args : List Bytes)
    → Settles lib
    → IsClean lib rs
    → IsClean lib (collect_resources lib rs args)
unfolding collect_resources
collect_resources-IsClean lib rs [] settles c = c
collect_resources-IsClean lib rs (a ∷ more) settles c =
    elim (Bool-cases (is_empty (normalize lib a))) [
      | inl e ↦ rw e (collect_resources-IsClean lib rs more settles c)
      | inr e ↦ elim (Bool-cases (contains (normalize lib a) rs)) [
        | inl f ↦ rw (e, f) (collect_resources-IsClean lib rs more settles c)
        | inr f ↦
            rw (e, f)
              (collect_resources-IsClean lib (rs ++ normalize lib a ∷ []) more settles
                (IsClean-snoc lib a rs settles e f c))
      ]
    ]

normal-map :
    (lib : Strings) (rs : List Bytes)
    → All (λ r. normalize lib r ≡ r) rs
    → map (normalize lib) rs ≡ rs
normal-map lib [] h = refl
normal-map lib (r ∷ rs) h = cc (h.0, normal-map lib rs h.1)

clean_accepted :
    (lib : Strings) (m : MsgRegisterShinzoObjects)
    → m.resources ≢ []
    → IsClean lib m.resources
    → validate_register_shinzo_objects lib m ≡ ok m
clean_accepted lib m ne c =
    let fixed = normal-map lib m.resources c.normal in
    (validate_register_shinzo_objects_iff lib m m).1 (
      record {
        some_resource = ne;
        non_empty = subst NonEmpty (sym fixed) c.non_empty;
        distinct = subst Distinct (sym fixed) c.distinct;
      },
      ap (λ rs. record m { resources = rs }) (sym fixed),
    )

IsClean-nil : (lib : Strings) → IsClean lib []
IsClean-nil lib = record { non_empty = tt; distinct = tt; normal = tt }

-- If normalising twice is normalising once, the command `register-objects` never fails in the message's
-- own check: with a usable client it refuses
-- arguments that are all blank, and otherwise sends the message with the collected names, which are
-- normalised, not empty and distinct.
pub cmd_register_objects_lem :
    (cl : Client) (a from : Bytes) (more : List Bytes)
    → Settles cl.strings
    → cl.from_address ≡ ok from
    → let resources = collect_resources cl.strings [] (a ∷ more) in
      let m = Msg.shinzo_objects (record { signer = from; resources = resources }) in
      IsClean cl.strings resources
      × (cmd_register_objects cl (a ∷ more) ≡ (
          if length resources == 0
          then err CliError.no_resources
          else and_then (map_err CliError.broadcast_failed (cl.broadcast m)) (λ _. ok m)))
unfolding cmd_register_objects
cmd_register_objects_lem cl a from more settles h =
    let clean =
      collect_resources-IsClean cl.strings [] (a ∷ more) settles (IsClean-nil cl.strings) in
    (
      clean,
      elim (Bool-cases (length (collect_resources cl.strings [] (a ∷ more)) == 0)) [
        | inl e ↦ rw (h, e)
        | inr e ↦ rw (
          h,
          e,
          clean_accepted cl.strings
              (record { signer = from; resources = collect_resources cl.strings [] (a ∷ more) })
              (λ z. cc (ap (λ xs. length xs == 0) z, e)) clean,
        )
      ],
    )
