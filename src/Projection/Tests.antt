-- ===== src/Projection/Tests.antt =====
-- The projected exposure of a book with 2000 long and 1000 short.
use feynman_engine.Prelude.{◌≡◌, refl, arith}
use feynman_engine.Prelude.Int.{ℤ, pos, magnitude, ◌+ℤ◌, ◌-ℤ◌, ◌*ℤ◌, ◌≤ℤ◌, neg_ℤ, quot_ℤ}
use feynman_engine.Externs.FixedPoint.{fixed_point, exact, whole}
use feynman_engine.Projection.{project_net_and_gross}
use feynman_engine.Projection.LongShort.{IsBook, opposing, project_net, project_gross}

abbrev net : ℤ
net = whole 1000

abbrev gross : ℤ
gross = whole 3000

-- A sale of 500.
abbrev sale : ℤ
sale = neg_ℤ (whole 500)

book : IsBook fixed_point exact net gross
unfolding ◌+ℤ◌ ◌-ℤ◌ ◌*ℤ◌ neg_ℤ quot_ℤ
book = record {
  long_exact = refl;
  short_exact = refl;
  net_le = omega arith;
  neg_net_le = omega arith;
}

project_net_example :
    let (net', gross') = project_net_and_gross fixed_point net gross sale in
    (net' ≡ net +ℤ sale) × (net' ≤ℤ gross') × (neg_ℤ net' ≤ℤ gross')
project_net_example = project_net fixed_point exact net gross sale book

project_gross_example :
    let gross' = (project_net_and_gross fixed_point net gross sale).1 in
    let size = pos (magnitude sale) in
    let closed = opposing fixed_point exact net gross sale in
    (size ≤ℤ closed → gross' ≡ gross -ℤ size)
    × (closed ≤ℤ size → gross' +ℤ closed +ℤ closed ≡ gross +ℤ size)
project_gross_example = project_gross fixed_point exact net gross sale book
