-- ===== src/Projection/Joins/Exhausted.antt =====
-- The searches of `completeParallels` miss nothing: when the loop returns, no parallel, map or
-- actor-owning compound above an active leaf is done.
use hyperchart.Chart.{Chart}
use hyperchart.Dict.{Dict}
use hyperchart.Projection.{Projection}
