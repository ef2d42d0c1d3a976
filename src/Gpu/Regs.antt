-- ===== src/Gpu/Regs.antt =====
-- crates/gpu/src/liverpool/regs.rs: the register state. An `f32` is its bit pattern; no arithmetic is done
-- on one.
use anotherps4_emulator.Common.{ℕ, List, replicate}

pub record ContextRegs : Type 0 where
  pub cb_color_base : List ℕ
  pub cb_color_size : List ℕ
  pub cb_color_info : List ℕ
  pub db_z_info : ℕ
  pub db_stencil_info : ℕ
  pub pa_cl_vport_xscale : ℕ
  pub pa_cl_vport_yscale : ℕ
  pub pa_cl_vport_zscale : ℕ
  pub pa_cl_vport_xoffset : ℕ
  pub pa_cl_vport_yoffset : ℕ
  pub pa_cl_vport_zoffset : ℕ
  pub pa_sc_screen_scissor_tl : ℕ
  pub pa_sc_screen_scissor_br : ℕ

pub record ShaderRegs : Type 0 where
  pub vs_program_addr : ℕ
  pub ps_program_addr : ℕ
  pub cs_program_addr : ℕ
  pub gs_program_addr : ℕ
  pub hs_program_addr : ℕ
  pub vs_user_data : List ℕ
  pub ps_user_data : List ℕ
  pub cs_user_data : List ℕ

pub record GpuRegs : Type 0 where
  pub context : ContextRegs
  pub shader : ShaderRegs
  pub num_instances : ℕ
  pub index_base : ℕ
  pub index_size : ℕ
  pub index_type : ℕ

-- `GpuRegs::default`
abbrev pub default_regs : GpuRegs
default_regs = record {
  context = record {
    cb_color_base = replicate 8 0;
    cb_color_size = replicate 8 0;
    cb_color_info = replicate 8 0;
    db_z_info = 0;
    db_stencil_info = 0;
    pa_cl_vport_xscale = 0;
    pa_cl_vport_yscale = 0;
    pa_cl_vport_zscale = 0;
    pa_cl_vport_xoffset = 0;
    pa_cl_vport_yoffset = 0;
    pa_cl_vport_zoffset = 0;
    pa_sc_screen_scissor_tl = 0;
    pa_sc_screen_scissor_br = 0;
  };
  shader = record {
    vs_program_addr = 0;
    ps_program_addr = 0;
    cs_program_addr = 0;
    gs_program_addr = 0;
    hs_program_addr = 0;
    vs_user_data = replicate 16 0;
    ps_user_data = replicate 16 0;
    cs_user_data = replicate 16 0;
  };
  num_instances = 0;
  index_base = 0;
  index_size = 0;
  index_type = 0;
}

-- The four register writes only trace, so the state stays as it is.
unfoldable pub write_context_reg : GpuRegs → ℕ → ℕ → GpuRegs
write_context_reg self offset value = self

unfoldable pub write_sh_reg : GpuRegs → ℕ → ℕ → GpuRegs
write_sh_reg self offset value = self

unfoldable pub write_config_reg : GpuRegs → ℕ → ℕ → GpuRegs
write_config_reg self offset value = self

unfoldable pub write_uconfig_reg : GpuRegs → ℕ → ℕ → GpuRegs
write_uconfig_reg self offset value = self
