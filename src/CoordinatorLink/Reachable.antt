-- ===== src/CoordinatorLink/Reachable.antt =====
-- The links that their users can have: the public operations, in any order.
use wtf.Prelude.{ℕ, ◌+◌, ◌≡◌, Bool, Option, some}
use wtf.Codec.{Codec}
use wtf.Configuration.Wire.{Addresses}
use wtf.CoordinatorLink.{
  ReturnCode, Client, Call, Link, new_link, Returned, force_configuration_fetch, pass_on,
}
use wtf.CoordinatorLink.Loops.{loop, ensure_configuration}

module _ {C Loc : Type 0} (codec : Codec) (addresses : Addresses Loc) (env : Client C)
    (open_ops : C → ℕ) where
  pub data Used : Link C Loc → Type 0 where
    started : (x : C) (rc : ReturnCode) → Used (new_link x rc)
    looped :
        {s : Link C Loc} (timeout : Option ℕ) (r : Returned × Link C Loc)
        → loop codec addresses env 2 timeout s ≡ some r
        → Used s
        → Used r.1
    ensured :
        {s : Link C Loc} (r : Bool × Link C Loc)
        → ensure_configuration codec addresses env (open_ops s.repl + 3) s ≡ some r
        → Used s
        → Used r.1
    forced :
        {s : Link C Loc} (r : Bool × Link C Loc)
        → force_configuration_fetch env s ≡ some r
        → Used s
        → Used r.1
    passed : {s : Link C Loc} (r : Call) → Used s → Used (pass_on env r s).1
