-- ===== src/Gateway/Undo.antt =====
-- The roll-back of a gateway's routes (internal/linuxgw/config.go) against the commands that set them up.
use std.Path.{fun_ext}
use mathlib.Core.List.{reverse, reverse_aux}
use anix_ops_sd_wan.Base.{
  ◌*◌, length, eqb, if◌then◌else◌, Option, none, some, map, sym, Text, str, less_text_asym,
  less_text_cotrans, List, [], ◌∷◌, ◌++◌, ◌≡◌, refl, ap, ◌∙◌, arith, ok,
}
use anix_ops_sd_wan.Base.Sorting.{sort, IsOrder, length-sort}
use anix_ops_sd_wan.Base.Sorting.Reversal.{IsTieless, flipped, sort-reverse}
use anix_ops_sd_wan.Net.{Net}
use anix_ops_sd_wan.Gateway.{
  RouteRule, Config, validate, rule_before, rule_after, sorted_route_rules, rule_arguments,
  route_arguments, add_commands, delete_commands, render_ip_route_commands,
  render_ip_route_rollback_commands,
}

rule_before-IsOrder : IsOrder rule_before
unfolding rule_before
rule_before-IsOrder = record {
  asym = λ x y h. ground (arith, h, less_text_asym x.name y.name);
  cotrans = λ x y z h k. ground (arith, h, k, less_text_cotrans x.name y.name z.name);
}

after-flipped : (a b : RouteRule) → rule_after a b ≡ flipped rule_before a b
unfolding rule_before rule_after flipped
after-flipped a b = ground arith

-- What stands behind the first text where the second begins with it.
abbrev pub behind : Text → Text → Option Text
behind [] s = some s
behind (x ∷ t) [] = none
behind (x ∷ t) (y ∷ s) = if eqb x y then behind t s else none

-- The command of ip that takes back what a command of ip has set up; none for other commands.
abbrev pub undo_command : Text → Option Text
undo_command command = elim (behind (str "ip rule add ") command) [
  | some arguments ↦ some (str "ip rule del " ++ arguments)
  | none ↦ elim (behind (str "ip route replace ") command) [
    | some arguments ↦ some (str "ip route del " ++ arguments)
    | none ↦ none
  ]
]

undo_commands : List RouteRule → List Text
undo_commands [] = []
undo_commands (r ∷ rules) =
    (str "ip rule del" ++ rule_arguments r)
    ∷ (str "ip route del" ++ route_arguments r)
    ∷ undo_commands rules

length-add_commands : (rules : List RouteRule) → length (add_commands rules) ≡ length rules * 2
unfolding add_commands
length-add_commands [] = refl
length-add_commands (r ∷ rules) = omega (arith, length-add_commands rules)

-- Each command that sets a route up has one that undoes it.
add_commands-undo :
    (rules : List RouteRule)
    → map undo_command (add_commands rules) ≡ map some (undo_commands rules)
unfolding add_commands undo_commands rule_arguments route_arguments
add_commands-undo [] = refl
add_commands-undo (r ∷ rules) =
    ap
      (λ rest.
        undo_command (str "ip rule add" ++ rule_arguments r)
        ∷ undo_command (str "ip route replace" ++ route_arguments r)
        ∷ rest)
      (add_commands-undo rules)

delete_commands-reverse_aux :
    (rules done : List RouteRule)
    → delete_commands (reverse_aux rules done)
      ≡ reverse_aux (undo_commands rules) (delete_commands done)
unfolding delete_commands undo_commands
delete_commands-reverse_aux [] done = refl
delete_commands-reverse_aux (r ∷ rules) done = delete_commands-reverse_aux rules (r ∷ done)

map-reverse_aux :
    {A B : Type 0} (f : A → B) (xs ys : List A)
    → map f (reverse_aux xs ys) ≡ reverse_aux (map f xs) (map f ys)
map-reverse_aux f [] ys = refl
map-reverse_aux f (x ∷ xs) ys = map-reverse_aux f xs (x ∷ ys)

-- For a configuration that passes validation, and whose route rules differ pairwise in their preference
-- or their name, both lists of commands are rendered; every command of the set-up is one that `ip` can
-- take back, by the same arguments behind `rule del` in place of `rule add` and `route del` in place
-- of `route replace`; and the roll-back takes the commands of the set-up back one by one, the last
-- first.
pub rollback-undoes :
    (net : Net) (c : Config)
    → validate net c ≡ ok tt
    → IsTieless rule_before c.route_rules
    → (setup : List Text) × (undone : List Text) × (render_ip_route_commands net c ≡ ok setup)
      × (render_ip_route_rollback_commands net c ≡ ok undone)
      × (length setup ≡ length c.route_rules * 2)
      × (map some undone ≡ reverse (map undo_command setup))
unfolding render_ip_route_commands render_ip_route_rollback_commands sorted_route_rules
    delete_commands
rollback-undoes net c valid tieless =
    let sorted = sort rule_before c.route_rules in
    let turned : sort rule_after c.route_rules ≡ reverse sorted =
      ap (λ less. sort less c.route_rules) (fun_ext (λ a. fun_ext (λ b. after-flipped a b)))
      ∙ sort-reverse rule_before rule_before-IsOrder c.route_rules tieless in
    let undone = reverse (undo_commands sorted) in
    (
      add_commands sorted,
      undone,
      rw valid refl,
      rw valid (ap ok (ap delete_commands turned ∙ delete_commands-reverse_aux sorted [])),
      length-add_commands sorted ∙ ap (λ n. n * 2) (length-sort rule_before c.route_rules),
      map-reverse_aux some (undo_commands sorted) [] ∙ ap reverse (sym (add_commands-undo sorted)),
    )
