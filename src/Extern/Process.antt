-- ===== src/Extern/Process.antt =====
-- A child process of the standard library, over the state of the world that the hooks share.
use radicle_client_services.Base.{Text, Bool, Outcome}
use radicle_client_services.GitServer.Error.{IoErrorKind}

pub record Process (Store : Type 0) : Type 0 where
  -- Command::new(path).spawn() with a piped standard input
  pub spawn : Text → Store → Outcome IoErrorKind (Unit {0}) × Store
  -- writeln!(stdin, line)
  pub write_line : Text → Store → Outcome IoErrorKind (Unit {0}) × Store
  -- child.wait(), and whether the status is a success
  pub wait : Store → Outcome IoErrorKind Bool × Store
