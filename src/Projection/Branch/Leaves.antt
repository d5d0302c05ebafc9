-- ===== src/Projection/Branch/Leaves.antt =====
-- Leaves of a run, and projections with the same leaves.
use hyperchart.Prelude.{ap, ◌≡◌}
use hyperchart.Chart.{Chart}
use hyperchart.Entry.Leaves.{Leaves}
use hyperchart.Projection.{Projection, Run}

abbrev pub RunLeaves : Chart → Run → Type 0
RunLeaves ast r = Leaves ast r.projection.active_leaves

abbrev pub SameLeaves : Projection → Projection → Type 0
SameLeaves p q = p.active_leaves ≡ q.active_leaves

pub leaves_of : {p q : Projection} → p ≡ q → SameLeaves p q
leaves_of e = ap (λ (y : Projection). y.active_leaves) e
