-- ===== src/Search/Reaches.antt =====
-- What the search is to find: the nodes to which a path leads.
use ieum_agent.Base.{String, List, In}
use ieum_agent.Search.{Edge}

pub data Reaches (edges : List Edge) (a : String) : String → Type 0 where
  start : Reaches edges a a
  step : {b c : String} → Reaches edges a b → In (b, c) edges → Reaches edges a c
