-- ===== src/Overlay/Graph.antt =====
-- AddNode and AddEdge. A nil map of properties is replaced by an empty one.
pub mod Edges
use sochdb_go.Prelude.{ℕ, List, [], ◌∷◌, ◌++◌, Option, none, some}
use sochdb_go.Prelude.Result.{Result, ok, err}
use sochdb_go.Prelude.Bytes.{Bytes, codes}
use sochdb_go.Overlay.{Kv}

-- A map of strings, as its entries.
abbrev pub Properties : Type 0
Properties = List (Bytes × Bytes)

pub record GraphNode : Type 0 where
  pub id : Bytes
  pub node_type : Bytes
  pub properties : Properties

pub record GraphEdge : Type 0 where
  pub from_id : Bytes
  pub edge_type : Bytes
  pub to_id : Bytes
  pub properties : Properties

pub record GraphJson : Type 0 where
  pub marshal_node : GraphNode → Option Bytes
  pub marshal_edge : GraphEdge → Option Bytes

pub data GraphError (E : Type 0) : Type 0 where
  request_failed : E → GraphError E
  marshal_failed : GraphError E

-- "_graph/<namespace>/nodes/<node>"
unfoldable pub node_key : Bytes → Bytes → Bytes
node_key namespace node_id = codes "_graph/" ++ (namespace ++ (codes "/nodes/" ++ node_id))

-- "_graph/<namespace>/edges/<from>/", the prefix that Traverse scans
unfoldable pub edge_prefix : Bytes → Bytes → Bytes
edge_prefix namespace from_id =
    codes "_graph/" ++ (namespace ++ (codes "/edges/" ++ (from_id ++ codes "/")))

-- "_graph/<namespace>/edges/<from>/<type>/<to>"
unfoldable pub edge_key : Bytes → Bytes → Bytes → Bytes → Bytes
edge_key namespace from_id edge_type to_id =
    codes "_graph/"
    ++ (namespace
        ++ (codes "/edges/" ++ (from_id ++ (codes "/" ++ (edge_type ++ (codes "/" ++ to_id))))))

abbrev pub or_empty : Option Properties → Properties
or_empty none = []
or_empty (some properties) = properties

abbrev pub graph_put_result :
    {S E : Type 0} → Result E (Unit {0}) × S → Result (GraphError E) (Unit {0}) × S
graph_put_result (err e, s) = (err (request_failed e), s)
graph_put_result (ok _, s) = (ok tt, s)

module _ {S E : Type 0} (kv : Kv S E) where
  -- The Put, unless json.Marshal failed.
  unfoldable pub put_json : Bytes → Option Bytes → S → Result (GraphError E) (Unit {0}) × S
  put_json key none s = (err marshal_failed, s)
  put_json key (some value) s = graph_put_result (kv.kv_put key value s)

  unfoldable pub add_node :
      GraphJson
      → Bytes
      → Bytes
      → Bytes
      → Option Properties
      → S
      → Result (GraphError E) (Unit {0}) × S
  add_node json namespace node_id node_type properties = put_json (node_key namespace node_id) (
      json.marshal_node
        (record { id = node_id; node_type = node_type; properties = or_empty properties }))

  unfoldable pub add_edge :
      GraphJson
      → Bytes
      → Bytes
      → Bytes
      → Bytes
      → Option Properties
      → S
      → Result (GraphError E) (Unit {0}) × S
  add_edge json namespace from_id edge_type to_id properties =
      put_json (edge_key namespace from_id edge_type to_id) (
        json.marshal_edge (record {
          from_id = from_id;
          edge_type = edge_type;
          to_id = to_id;
          properties = or_empty properties;
        }))
