-- ===== src/Demo/Tests.antt =====
-- Tests of the model of scripts/demo_task_application.py on small inputs.
mod Output
mod Server
mod Exchange
mod Demonstrate
