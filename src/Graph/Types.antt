-- ===== src/Graph/Types.antt =====
-- The types of state_graph_types.hpp, run_config.hpp and state_graph.hpp.
use langgraph_cpp.Prelude.{ℕ, String, Bool, false, Option, none, List, [], Result, Status, text_key}
use langgraph_cpp.Prelude.Map.{Map}
use langgraph_cpp.Json.{JsonLib, Json}
use langgraph_cpp.State.{Services, State, StateUpdate}

pub data CommandGraph : Type 0 where
  current parent : CommandGraph

-- What a handler or a router is told of the run (`Runtime::Options`).
pub record RuntimeInfo (A : Type 0) : Type 0 where
  pub run_id : String
  pub thread_id : String
  pub checkpoint_namespace : String
  pub task_id : String
  pub step : ℕ
  pub node_id : String
  pub attempt : ℕ
  pub resume_value : Option A

module _ ⦃J : JsonLib⦄ where
  pub record Command : Type 0 where
    pub graph : CommandGraph
    pub update : StateUpdate
    pub resume : Option Json
    pub goto : List String

  pub record Interrupt : Type 0 where
    pub id : String
    pub value : Json
    pub resume_values : Json

  pub record NodeOutput : Type 0 where
    pub update : StateUpdate
    pub interrupt : Option Interrupt
    pub command : Option Command

  -- How a call of a node's handler ends. A failed call carries the interrupts that the handler had
  -- requested through its runtime.
  pub data HandlerCall : Type 0 where
    returned : NodeOutput → HandlerCall
    failed : Status → List Json → HandlerCall
    threw : String → HandlerCall
    threw_unknown : HandlerCall

  abbrev pub Info : Type 0
  Info = RuntimeInfo Json

  -- Node handlers are the application's code. `timed_out` is what the clock says after the call.
  pub record Attempt : Type 0 where
    pub call : HandlerCall
    pub timed_out : Bool

  abbrev pub NodeHandler : Type 0
  NodeHandler = State → Info → Attempt

  abbrev pub NodeErrorHandler : Type 0
  NodeErrorHandler = Status → State → Info → HandlerCall

  pub record NodeOptions : Type 0 where
    pub max_attempts : ℕ
    pub has_delay : Bool
    pub has_timeout : Bool
    pub error_handler : Option NodeErrorHandler

  pub record NodeSpec : Type 0 where
    pub handler : NodeHandler
    pub options : NodeOptions

  -- A target of a router; with an argument it is a `Send`.
  pub record RouteTarget : Type 0 where
    pub node : String
    pub arg : Option State

  abbrev pub RouteHandler : Type 0
  RouteHandler = State → Info → Result (List RouteTarget)

module _ ⦃J : JsonLib⦄ ⦃S : Services⦄ where
  pub record StateSchemaOptions : Type 0 where
    pub input_schema : Option S.Schema
    pub state_schema : Option S.Schema
    pub output_schema : Option S.Schema

  pub record StateGraph : Type 0 where
    pub nodes : Map String NodeSpec
    pub edges : Map String (List String)
    pub routers : Map String RouteHandler
    pub router_destinations : Map String (List String)
    pub command_destinations : Map String (List String)
    pub node_defaults : NodeOptions
    pub schemas : StateSchemaOptions

  abbrev pub default_options : NodeOptions
  default_options = record {
    max_attempts = 1;
    has_delay = false;
    has_timeout = false;
    error_handler = none;
  }

  abbrev pub empty_graph : StateGraph
  empty_graph = record {
    nodes = [];
    edges = [];
    routers = [];
    router_destinations = [];
    command_destinations = [];
    node_defaults = default_options;
    schemas = record { input_schema = none; state_schema = none; output_schema = none };
  }
