-- ===== src/TelOpts.antt =====
-- telopts/: the telopts' methods, and the dispatch of telopt.go's interface `TelnetOption` to them.
-- No transition of these telopts returns an error, so that result is left out.
mod Tests
pub mod Prompts
pub mod NawsSize
pub mod CharsetNames
pub mod CharsetOption
pub mod CharsetChoice
pub mod CharsetAgreement
pub mod Location
pub mod TerminalType
pub mod Mode
pub mod EnvironText
pub mod Environ
pub mod EnvironVars
pub mod Register
pub mod Dispatch
use telnet.Prelude.{Option, none, some, Bytes}
use telnet.TerminalData.{TelOptState, PostSend}
use telnet.Terminal.{TelOpt, Terminal, BaseTelOpt}

-- What a transition leaves and returns.
pub record Transition : Type 0 where
  pub option : TelOpt
  pub terminal : Terminal
  pub post_send : Option PostSend

-- The errors that `Subnegotiate` returns.
pub data SubnegotiationError : Type 0 where
  unexpected_subnegotiation : Bytes → SubnegotiationError
  empty_subnegotiation : SubnegotiationError
  wrong_length : Bytes → SubnegotiationError
  empty_key : SubnegotiationError

-- What a subnegotiation leaves and returns; `none` is no error.
pub record Subnegotiated : Type 0 where
  pub option : TelOpt
  pub terminal : Terminal
  pub failure : Option SubnegotiationError

-- The methods of `BaseTelOpt` that change it.
unfoldable pub base_transition_local_state : TelOptState → TelOpt → TelOpt
base_transition_local_state new_state o = record o {
  base = record o.base { local_state = new_state };
}

unfoldable pub base_transition_remote_state : TelOptState → TelOpt → TelOpt
base_transition_remote_state new_state o = record o {
  base = record o.base { remote_state = new_state };
}

unfoldable pub base_subnegotiate : Bytes → TelOpt → Terminal → Subnegotiated
base_subnegotiate subnegotiation o t = record {
  option = o;
  terminal = t;
  failure = some (unexpected_subnegotiation subnegotiation);
}
