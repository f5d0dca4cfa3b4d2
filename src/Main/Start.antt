-- ===== src/Main/Start.antt =====
-- soaagent/main.c, soaagent/invoke_stub.c: the parts of the start, from the last to the first, and `main`.
use ddmframework.Invoke.Agent.{Agent}
