-- ===== src/Tests/Verdicts.antt =====
-- The packet that the actor compares, and the arguments that the tests of the C interface look at.
use tansiv.Base.{
  ℕ, ◌≡◌, ◌↔◌, refl, ap, ◌∙◌, sym, Bool, true, none, some, List, [], ◌∷◌, arith, Result, ok,
}
use tansiv.CApi.{Arg, same_arg, parse_os_args}
use tansiv.CApi.Compare.{parse_args_compare, parse_os_args-parse_args_compare}
use tansiv.Connector.Wire.Actor.{ToTansivMsg}
use tansiv.Connector.Wire.Frames.{frame_bytes}
use tansiv.TestActor.{TestError}
use tansiv.TestActor.Unix.{run}
use tansiv.TestActor.Unix.Packets.{send_send_packet_actor}
use tansiv.TestActor.Unix.Compared.{Judged, exit_code-send_send_packet_actor}
use tansiv.Tests.Fixtures.{flatbuffers}
use tansiv.Tests.Wire.{encoder}
use tansiv.Tests.Frames.{
  out_root, out_body, out_root-body, sender, packet, packet_client, packet-Readable,
}

same_arg-eq : (x y : List ℕ) → same_arg x y ≡ true → x ≡ y
same_arg-eq [] [] e = refl
same_arg-eq [] (y ∷ ys) e = absurd cc
same_arg-eq (x ∷ xs) [] e = absurd cc
same_arg-eq (x ∷ xs) (y ∷ ys) e = ground (arith, same_arg-eq xs ys)

same_arg_self : (x : List ℕ) → same_arg x x ≡ true
same_arg_self [] = refl
same_arg_self (x ∷ xs) = ground (arith, same_arg_self xs)

-- Tables are told apart by their bytes.
abbrev same : ToTansivMsg → ToTansivMsg → Bool
same x y = same_arg (out_body x) (out_body y)

same_iff : (x y : ToTansivMsg) → (same x y ≡ true) ↔ (x ≡ y)
same_iff x y = (
  (λ e.
      let r : some x ≡ some y =
        sym (out_root-body x)
        ∙ ap out_root (same_arg-eq (out_body x) (out_body y) e)
        ∙ out_root-body y in
      cc),
  λ e. ap (λ z. same_arg (out_body x) (out_body z)) (sym e) ∙ same_arg_self (out_body x),
)

exit_code-send_send_packet_actor_example :
    (result : Result TestError (Unit {0})) × (run encoder flatbuffers out_root
        (ok (packet_client, λ n. none))
        (λ a. some (send_send_packet_actor encoder flatbuffers sender same a))
      ≡ some result)
    × Judged encoder flatbuffers sender same same_iff packet result
unfolding frame_bytes
exit_code-send_send_packet_actor_example =
    exit_code-send_send_packet_actor encoder flatbuffers sender same same_iff (5 ∷ []) packet_client
      (λ n. none) (λ n. refl) packet packet-Readable refl

-- An argument, "--", and another argument.
abbrev argv : List Arg
argv = (97 ∷ []) ∷ (45 ∷ 45 ∷ []) ∷ (98 ∷ []) ∷ []

parse_os_args-parse_args_compare_example :
    parse_os_args argv (λ args. parse_args_compare argv args 1) ≡ ok (tt, 2)
parse_os_args-parse_args_compare_example = parse_os_args-parse_args_compare argv
